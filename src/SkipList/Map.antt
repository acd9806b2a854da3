-- ===== src/SkipList/Map.antt =====
-- atomic_skiplist.hpp as an ordered map: `find`, `contains`, `find_if`, `insert` and `emplace`.
use cpp_lockfree_structures.Prelude.{
  ℕ, zero, suc, ◌≤◌, ◌<◌, ◌≡◌, refl, sym, ap, ◌∙◌, subst, Bool, true, false, not, ◌&&◌, none, some,
  is_some, List, [], ◌∷◌, ◌++◌, inl, inr, if◌then◌else◌, arith, Bool-cases, Option-cases,
}
use cpp_lockfree_structures.BoundedQueue.{failures}
use cpp_lockfree_structures.Outcomes.{head_fails, tail, after_failures, after_none}
use cpp_lockfree_structures.Levels.{Node, random_level, new_node, live}
use cpp_lockfree_structures.Levels.Order.{
  IsStrictWeak, cores, live_cores, live-cores, AtBottom, AtBottom-append, IsSorted,
}
use cpp_lockfree_structures.Levels.Walk.{Stopped, descend-Stopped}
use cpp_lockfree_structures.Levels.Place.{place, Descended, descend-Descended, descend-Grown}
use cpp_lockfree_structures.SkipList.{
  Entry, max_level, max_attempts, satisfies, not_behind, find_predecessors, find, contains, find_if,
  successor_has, insert_loop, insert,
}
use cpp_lockfree_structures.SkipList.Ordered.{
  lookup, IsStrict, add, add_absent, add_present, place-IsStrict, lookup-place,
}
use cpp_lockfree_structures.SkipList.Keys.{not-false, same}
use cpp_lockfree_structures.SkipList.Seek.{entry_less}
use cpp_lockfree_structures.SkipList.Search.{find_loop-Searched}

not-true : {b : Bool} → not b ≡ true → b ≡ false
not-true {b = true} h = cc h
not-true {b = false} h = refl

module _ {ℓ κ} {K : Type ℓ} {V : Type κ} (less : K → K → Bool) where
  -- The entries of the skip list, in ascending order.
  pub record Represents (nodes : List (Node (Entry K V))) (l : List (Entry K V))
      : Type (ℓ ⊔ κ) where
    pub items : live nodes ≡ l
    pub bottom : AtBottom nodes
    pub sorted : IsSorted (entry_less less) (cores nodes)
    pub strict : IsStrict less l

  pub Represents-cores :
      (nodes nodes' : List (Node (Entry K V))) (l : List (Entry K V))
      → cores nodes' ≡ cores nodes
      → AtBottom nodes'
      → Represents nodes l
      → Represents nodes' l
  Represents-cores nodes nodes' l e b h = record {
    items = live-cores nodes' ∙ ap live_cores e ∙ sym (live-cores nodes) ∙ h.items;
    bottom = b;
    sorted = subst (IsSorted (entry_less less)) (sym e) h.sorted;
    strict = h.strict;
  }

  module _ (order : IsStrictWeak less) where
    -- Under a strict weak order: `find`, level by level, returns what a linear search through the
    -- entries does, `contains` and `find_if` agree with it, and all keep the entries, though they
    -- unlink erased nodes.
    pub find_searches :
        (k : K) (func : V → Bool) (nodes : List (Node (Entry K V))) (l : List (Entry K V))
        → Represents nodes l
        → ((find less k nodes).0 ≡ lookup less k l)
          × ((contains less k nodes).0 ≡ is_some (lookup less k l))
          × ((find_if less k func nodes).0 ≡ satisfies func (lookup less k l))
          × Represents (find less k nodes).1 l
    unfolding find contains find_if
    find_searches k func nodes l h =
        let g =
          find_loop-Searched less order k 31 nodes h.bottom h.sorted
            (subst (IsStrict less) (sym h.items) h.strict) in
        let e = g.result ∙ ap (lookup less k) h.items in
        (
          e,
          ap is_some e,
          ap (satisfies func) e,
          Represents-cores nodes (find less k nodes).1 l g.kept g.bottom h,
        )

    passes_on :
        (k : K) (x y : Entry K V)
        → not_behind less k y ≡ true
        → entry_less less y x ≡ false
        → not_behind less k x ≡ true
    unfolding not_behind
    passes_on k x y p h = elim (Bool-cases (less k x.0)) [
      | inl b ↦ absurd (cc (order.cotransitive k y.0 x.0 b (not-true p), h))
      | inr b ↦ rw b refl
    ]

    found :
        (k : K) (nodes : List (Node (Entry K V))) (l : List (Entry K V))
        → Represents nodes l
        → Descended
            (not_behind less k)
            (entry_less less)
            (passes_on k)
            nodes
            (find_predecessors less k nodes)
    unfolding find_predecessors
    found k nodes l h =
        descend-Descended (not_behind less k) (entry_less less) (passes_on k) 31 nodes h.bottom
          h.sorted

    successor_has_lem :
        (k : K) (nodes : List (Node (Entry K V)))
        → Stopped (not_behind less k) nodes
        → successor_has less k nodes ≡ false
    unfolding successor_has Stopped not_behind
    successor_has_lem k [] h = refl
    successor_has_lem k (c ∷ rest) h = elim (Bool-cases (c.linked 0)) [
      | inl e ↦ rw (e, not-false (h.0 e)) refl
      | inr e ↦ rw e (successor_has_lem k rest (h.1 e))
    ]

    grown :
        (k : K) (v : V) (level : ℕ) (nodes : List (Node (Entry K V))) (l : List (Entry K V))
        → lookup less k l ≡ none
        → Represents nodes l
        → (let d = find_predecessors less k nodes in
            Represents (d.0 ++ new_node (k, v) level ∷ d.1) (place (not_behind less k) (k, v) l))
    unfolding not_behind
    grown k v level nodes l a h =
        let g =
          descend-Grown (not_behind less k) (entry_less less) (passes_on k) (k, v)
            (λ y p. not-true p) (λ y p. order.asymmetric k y.0 (not-false p)) level nodes
            (find_predecessors less k nodes) h.sorted (found k nodes l h) in
        record {
          items = g.items ∙ ap (place (not_behind less k) (k, v)) h.items;
          bottom = g.bottom;
          sorted = g.sorted;
          strict = place-IsStrict less order k v l a h.strict;
        }

    -- What an attempt comes to that goes on after `find_predecessors`.
    searched :
        (k : K) (nodes : List (Node (Entry K V))) (l : List (Entry K V))
        → Represents nodes l
        → (let d = find_predecessors less k nodes in
            Represents (d.0 ++ d.1) l × (successor_has less k d.1 ≡ false))
    unfolding find_predecessors
    searched k nodes l h =
        let g = found k nodes l h in
        let d = find_predecessors less k nodes in
        (
          Represents-cores nodes (d.0 ++ d.1) l g.kept
              (AtBottom-append d.0 d.1 g.bottom.0 g.bottom.1) h,
          successor_has_lem k d.1 (descend-Stopped (not_behind less k) 31 nodes),
        )

    -- The key is there: `insert` refuses.
    insert_present :
        (retried : Entry K V → Entry K V) (n : ℕ) (weak : List Bool) (coins : ℕ → List Bool) (k : K)
        (v u : V) (nodes : List (Node (Entry K V))) (l : List (Entry K V))
        → lookup less k l ≡ some u
        → Represents nodes l
        → (let r = insert_loop less retried (suc n) weak coins (k, v) nodes in
            (r.0 ≡ false) × Represents r.1 l)
    unfolding insert_loop contains
    insert_present retried n weak coins k v u nodes l e h =
        let g = find_searches k (λ w. true) nodes l h in rw (g.0 ∙ e) (refl, g.3)

    -- An attempt at an absent key whose compare-exchange succeeds, and one whose fails.
    insert_once :
        (retried : Entry K V → Entry K V) (n : ℕ) (weak : List Bool) (coins : ℕ → List Bool) (k : K)
        (v : V) (nodes : List (Node (Entry K V))) (l : List (Entry K V))
        → head_fails weak ≡ false
        → lookup less k l ≡ none
        → Represents nodes l
        → (let r = insert_loop less retried (suc n) weak coins (k, v) nodes in
            (r.0 ≡ true) × Represents r.1 (place (not_behind less k) (k, v) l))
    unfolding insert_loop contains
    insert_once retried n weak coins k v nodes l f e h =
        let g = find_searches k (λ w. true) nodes l h in
        let m = (find less k nodes).1 in
        rw (g.0 ∙ e, (searched k m l g.3).1, f)
          (refl, grown k v (random_level max_level (coins n)) m l e g.3)

    insert_again :
        (retried : Entry K V → Entry K V) (n : ℕ) (weak : List Bool) (coins : ℕ → List Bool) (k : K)
        (v : V) (nodes : List (Node (Entry K V))) (l : List (Entry K V))
        → head_fails weak ≡ true
        → lookup less k l ≡ none
        → Represents nodes l
        → (m : List (Node (Entry K V))) × Represents m l
          × (insert_loop less retried (suc n) weak coins (k, v) nodes
              ≡ insert_loop less retried n (tail weak) coins (retried (k, v)) m)
    unfolding insert_loop contains
    insert_again retried n weak coins k v nodes l f e h =
        let g = find_searches k (λ w. true) nodes l h in
        let m = (find less k nodes).1 in
        let d = find_predecessors less k m in
        let s = searched k m l g.3 in (d.0 ++ d.1, s.0, rw (g.0 ∙ e, s.1, f) refl)

    insert_absent :
        (retried : Entry K V → Entry K V) (n : ℕ) (weak : List Bool) (coins : ℕ → List Bool)
        (e : Entry K V) (nodes : List (Node (Entry K V))) (l : List (Entry K V))
        → failures weak < n
        → ((m : ℕ) → m ≤ failures weak → lookup less (after_failures retried m e).0 l ≡ none)
        → Represents nodes l
        → (let f = after_failures retried (failures weak) e in
            let r = insert_loop less retried n weak coins e nodes in
            (r.0 ≡ true) × Represents r.1 (place (not_behind less f.0) f l))
    insert_absent retried zero weak coins e nodes l g a h = absurd (omega arith)
    insert_absent retried (suc n) [] coins e nodes l g a h =
        insert_once retried n [] coins e.0 e.1 nodes l refl (a 0 (omega arith)) h
    insert_absent retried (suc n) (false ∷ weak) coins e nodes l g a h =
        insert_once retried n (false ∷ weak) coins e.0 e.1 nodes l refl (a 0 (omega arith)) h
    insert_absent retried (suc n) (true ∷ weak) coins e nodes l g a h =
        let i =
          insert_again retried n (true ∷ weak) coins e.0 e.1 nodes l refl (a 0 (omega arith)) h in
        let f = after_failures retried (failures weak) (retried e) in
        subst (λ r. (r.0 ≡ true) × Represents r.1 (place (not_behind less f.0) f l)) (sym i.2)
          (insert_absent retried n weak coins (retried e) i.0 l (omega arith)
            (λ m b. a (suc m) (omega (arith, b))) i.1)

    -- Under a strict weak order, with fewer than 1000 spurious failures in a row: `insert` refuses a key
    -- that is there, and puts the entry of another in its place, so that a search for any key then
    -- finds what it found before, or the new value if the key is equivalent to the new one.
    pub insert_adds_entry :
        (weak : List Bool) (coins : ℕ → List Bool) (k : K) (v : V) (nodes : List (Node (Entry K V)))
        (l : List (Entry K V))
        → failures weak < 1000
        → Represents nodes l
        → (let r = insert less weak coins k v nodes in
            (r.0 ≡ not (is_some (lookup less k l)))
            × Represents r.1 (add less k v l)
            × ((j : K)
                → lookup less j (add less k v l)
                  ≡ (if r.0 && same less j k then some v else lookup less j l)))
    unfolding insert
    insert_adds_entry weak coins k v nodes l g h = elim (Option-cases (lookup less k l)) [
      | inr (u, e) ↦
          let i = insert_present (λ f. f) 999 weak coins k v u nodes l e h in
          rw (e, add_present less k v u l e) (i.0, i.1, λ j. rw i.0 refl)
      | inl e ↦
          let i =
            insert_absent (λ f. f) max_attempts weak coins (k, v) nodes l g
              (λ m b.
                subst {A = Entry K V} (λ f. lookup less f.0 l ≡ none) (sym (after_none m (k, v))) e)
              h in
          rw (e, add_absent less k v l e)
            (
              i.0,
              subst {A = Entry K V}
                  (λ f.
                    Represents (insert_loop less (λ f. f) max_attempts weak coins (k, v) nodes).1
                      (place (not_behind less f.0) f l))
                  (after_none (failures weak) (k, v)) i.1,
              λ j. rw i.0 (lookup-place less order j k v l e),
            )
    ]
