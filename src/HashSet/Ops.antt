-- ===== src/HashSet/Ops.antt =====
-- `insert`, `erase` and `contains` of atomic_set.hpp as operations on a set.
use cpp_lockfree_structures.Prelude.{
  ℕ, suc, ◌%◌, ◌<◌, ◌≡◌, refl, sym, ap, ap₂, ◌∙◌, subst, Bool, true, false, not, ◌&&◌, Option, none,
  some, is_some, List, [], ◌∷◌, inl, inr, update, update_self, if◌then◌else◌, add64, sub64, arith,
  Option-cases,
}
use cpp_lockfree_structures.BoundedQueue.{failures}
use cpp_lockfree_structures.HashMap
use cpp_lockfree_structures.HashMap.{HashMap}
use cpp_lockfree_structures.HashMap.Map.{insert_into_map}
use cpp_lockfree_structures.HashMap.Erase.{erase_from_map}
use cpp_lockfree_structures.HashMap.Unique.{insert-erase-IsUnique}
use cpp_lockfree_structures.HashSet.{
  Node, Set, find_node, get_bucket_index, contains, link, insert, move_loop, insert_move, erase,
}
use cpp_lockfree_structures.HashSet.Sim.{to_map, contains-to_map, insert-to_map, erase-to_map}

module _ {ℓ} {T : Type ℓ} (same : T → T → Bool) (hash : T → ℕ) where
  -- The set has no element twice.
  unfoldable pub IsUnique : Set T → Type ℓ
  IsUnique s = HashMap.Unique.IsUnique same hash (to_map s)

  -- Seen as the map from its elements to nothing, the set does what the hash map does: `contains`,
  -- `insert` and `erase` give the same answers, and leave the same nodes.
  pub set_as_map :
      (weak : List Bool) (x : T) (s : Set T)
      → (contains same hash x s ≡ HashMap.contains same hash x (to_map s))
        × ((let r = insert same hash weak x s in (r.0, to_map r.1))
            ≡ HashMap.insert same hash weak x tt (to_map s))
        × ((let r = erase same hash x s in (r.0, to_map r.1))
            ≡ HashMap.erase same hash x (to_map s))
  set_as_map weak x s = (
    sym (contains-to_map same hash x s),
    sym (insert-to_map same hash weak x s),
    sym (erase-to_map same hash x s),
  )

  contains-find :
      (x : T) (m : HashMap {ℓ, 0} T Unit)
      → HashMap.contains same hash x m ≡ is_some (HashMap.find same hash x m)
  unfolding HashMap.contains HashMap.find
  contains-find x m = elim (Option-cases (HashMap.find same hash x m)) [
    | inl e ↦ rw (HashMap.contains, e) refl
    | inr (u, e) ↦ rw (HashMap.contains, e) refl
  ]

  is_some-if :
      (b : Bool) (o : Option {0} Unit)
      → is_some (if b then some tt else o) ≡ (if b then true else is_some o)
  is_some-if true o = refl
  is_some-if false o = refl

  -- What is in, through the map.
  through :
      (y : T) (s : Set T) (m : HashMap {ℓ, 0} T Unit)
      → to_map s ≡ m
      → contains same hash y s ≡ is_some (HashMap.find same hash y m)
  through y s m e =
      sym (contains-to_map same hash y s) ∙ ap (HashMap.contains same hash y) e ∙ contains-find y m

  module _ (compatible : (x y : T) → same x y ≡ true → hash x ≡ hash y)
      (symmetric : (x y : T) → same x y ≡ true → same y x ≡ true)
      (transitive : (x y z : T) → same x y ≡ true → same y z ≡ true → same x z ≡ true) where
    -- `insert(const T&)`, with fewer than 100 failing compare-exchanges, answers whether the value was
    -- not in. Then it is in, every other value is in as before, and the count is one more; else the
    -- set stays as it is. A set without duplicates stays so. The comparator is symmetric and transitive,
    -- and values that are the same have the same hash.
    pub insert_as_set :
        (weak : List Bool) (x : T) (s : Set T)
        → failures weak < 100
        → (let r = insert same hash weak x s in
            (r.0 ≡ not (contains same hash x s))
            × ((y : T)
                → contains same hash y r.1 ≡ (
                    if not (contains same hash x s) && same x y
                    then true
                    else contains same hash y s))
            × (r.1.count ≡ (if contains same hash x s then s.count else add64 s.count 1))
            × (IsUnique s → IsUnique r.1))
    unfolding IsUnique
    insert_as_set weak x s h =
        let r = insert same hash weak x s in
        let m = to_map s in
        let e = insert-to_map same hash weak x s in
        let c = contains-to_map same hash x s in
        let i = (insert_into_map same hash compatible weak weak x tt m h (omega arith)).0 in
        (
          sym (ap (λ q. q.0) e) ∙ i.answer ∙ ap not c,
          λ y.
              through y r.1 (HashMap.insert same hash weak x tt m).1 (ap (λ q. q.1) (sym e))
              ∙ ap is_some (i.values y)
              ∙ is_some-if (not (HashMap.contains same hash x m) && same x y)
                  (HashMap.find same hash y m)
              ∙ ap₂ (λ b z. if not b && same x y then true else z) c (sym (through y s m refl)),
          ap (λ q. q.1.count) (sym e)
              ∙ i.counted
              ∙ ap (λ b. if b then s.count else add64 s.count 1) c,
          λ u.
              subst (λ q. HashMap.Unique.IsUnique same hash q.1) e
                (insert-erase-IsUnique same hash compatible symmetric transitive weak x tt m h u).0,
        )

    -- `erase` answers whether the value is in, and lowers the count if so; every other value is in as
    -- before. In a set without duplicates the value is then not in any more, and there are no
    -- duplicates still. The comparator is as for `insert`.
    pub erase_as_set :
        (x : T) (s : Set T)
        → IsUnique s
        → (let r = erase same hash x s in
            (r.0 ≡ contains same hash x s)
            × (contains same hash x r.1 ≡ false)
            × ((y : T) → same x y ≡ false → contains same hash y r.1 ≡ contains same hash y s)
            × (r.1.count ≡ (if contains same hash x s then sub64 s.count 1 else s.count))
            × IsUnique r.1)
    unfolding IsUnique
    erase_as_set x s u =
        let r = erase same hash x s in
        let m = to_map s in
        let e = erase-to_map same hash x s in
        let c = contains-to_map same hash x s in
        let alike = (λ (j k i : T) (p : same j k ≡ true) (q : same j i ≡ true).
          transitive k j i (symmetric j k p) q) in
        let g = erase_from_map same hash alike x m in
        let v =
          insert-erase-IsUnique same hash compatible symmetric transitive [] x tt m (omega arith)
            u in
        (
          sym (ap (λ q. q.0) e) ∙ g.0 ∙ c,
          sym (contains-to_map same hash x r.1)
              ∙ ap (λ q. HashMap.contains same hash x q.1) (sym e)
              ∙ v.2,
          λ y d.
              through y r.1 (HashMap.erase same hash x m).1 (ap (λ q. q.1) (sym e))
              ∙ ap is_some (g.2 y d)
              ∙ sym (through y s m refl),
          ap (λ q. q.1.count) (sym e) ∙ g.3 ∙ ap (λ b. if b then sub64 s.count 1 else s.count) c,
          subst (λ q. HashMap.Unique.IsUnique same hash q.1) e v.1,
        )

    -- A set without duplicates. `insert(const T&)`, with fewer than 100 failing compare-exchanges, answers
    -- whether the value was not in; then it is in, every other value is in as before, and the count is
    -- one more. `erase` answers whether the value was in, lowers the count if so, and leaves a set in
    -- which it is not and every other value is as before. Neither makes a duplicate. The comparator is
    -- symmetric and transitive, and values that are the same have the same hash.
    pub set_refined :
        (weak : List Bool) (x : T) (s : Set T)
        → failures weak < 100
        → IsUnique s
        → (let r = insert same hash weak x s in
            (r.0 ≡ not (contains same hash x s))
            × ((y : T)
                → contains same hash y r.1 ≡ (
                    if not (contains same hash x s) && same x y
                    then true
                    else contains same hash y s))
            × (r.1.count ≡ (if contains same hash x s then s.count else add64 s.count 1))
            × IsUnique r.1)
          × (let r = erase same hash x s in
              (r.0 ≡ contains same hash x s)
              × (contains same hash x r.1 ≡ false)
              × ((y : T) → same x y ≡ false → contains same hash y r.1 ≡ contains same hash y s)
              × (r.1.count ≡ (if contains same hash x s then sub64 s.count 1 else s.count))
              × IsUnique r.1)
    set_refined weak x s h u =
        let i = insert_as_set weak x s h in ((i.0, i.1, i.2, i.3 u), erase_as_set x s u)

  first_in :
      (x z : T) (chain : List (Node T))
      → same z x ≡ false
      → find_node same x ((record { item = z; deleted = false }) ∷ chain) ≡ find_node same x chain
  unfolding find_node
  first_in x z chain d = rw d refl

  missing_after :
      (x z : T) (s : Set T)
      → same z x ≡ false
      → find_node same x (s.buckets (hash x % s.bucket_count)) ≡ none
      → contains same hash x (link same hash (hash x % s.bucket_count) z s) ≡ false
  unfolding link contains get_bucket_index
  missing_after x z s d e =
      let i = hash x % s.bucket_count in
      let p =
        ap (find_node same x) (
          update_self s.buckets i ((record { item = z; deleted = false }) ∷ s.buckets i) {j = i}
            refl)
        ∙ first_in x z (s.buckets i) d
        ∙ e in
      ap is_some p

  second_attempt :
      (moved : T → T) (n i : ℕ) (weak : List Bool) (x : T) (s : Set T)
      → find_node same x (s.buckets i) ≡ none
      → find_node same (moved x) (s.buckets i) ≡ none
      → move_loop same hash moved (suc (suc n)) (true ∷ (false ∷ weak)) i x s
        ≡ (true, link same hash i (moved x) s)
  unfolding move_loop
  second_attempt moved n i weak x s e e' = rw (move_loop, e, e') refl

  -- `insert(T&&)` of a value that is not in, when the first compare-exchange fails and the second
  -- succeeds, and the moved-from value is neither in the value's bucket nor the same as the value: it
  -- returns true, has put a node of the moved-from value at the head of the value's bucket and left
  -- the other buckets alone, and the count is one more; the value is still not in.
  pub moved_insert_lost :
      (moved : T → T) (weak : List Bool) (x : T) (s : Set T)
      → find_node same x (s.buckets (hash x % s.bucket_count)) ≡ none
      → find_node same (moved x) (s.buckets (hash x % s.bucket_count)) ≡ none
      → same (moved x) x ≡ false
      → (let r = insert_move same hash moved (true ∷ (false ∷ weak)) x s in
          (r.0 ≡ true)
          × (r.1.buckets ≡ (
              let i = hash x % s.bucket_count in
              update s.buckets i ((record { item = moved x; deleted = false }) ∷ s.buckets i)))
          × (r.1.count ≡ add64 s.count 1)
          × (contains same hash x r.1 ≡ false))
  unfolding insert_move get_bucket_index link
  moved_insert_lost moved weak x s e e' d =
      let i = hash x % s.bucket_count in
      let p = second_attempt moved 998 i weak x s e e' in
      (
        ap (λ r. r.0) p,
        ap (λ r. r.1.buckets) p,
        ap (λ r. r.1.count) p,
        ap (λ r. contains same hash x r.1) p ∙ missing_after x (moved x) s d e,
      )
