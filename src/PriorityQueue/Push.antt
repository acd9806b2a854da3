-- ===== src/PriorityQueue/Push.antt =====
-- `push` of atomic_priority_queue.hpp.
use cpp_lockfree_structures.Prelude.{
  ℕ, zero, suc, ◌<◌, ◌≡◌, refl, sym, ap, ◌∙◌, subst, Bool, true, false, List, [], ◌∷◌, ◌++◌, inl,
  inr, arith, Bool-cases,
}
use mathlib.Core.List.Perm
use mathlib.Core.List.{Perm}
use cpp_lockfree_structures.BoundedQueue.{failures}
use cpp_lockfree_structures.Outcomes.{after_failures, after_none}
use cpp_lockfree_structures.Levels.{Node, random_level, new_node, live}
use cpp_lockfree_structures.Levels.Order.{
  IsStrictWeak, cores, live_cores, live-cores, AtBottom, AtBottom-append, IsSorted,
}
use cpp_lockfree_structures.Levels.Place.{place, Descended, descend-Descended, descend-Grown}
use cpp_lockfree_structures.PriorityQueue.{
  max_level, max_attempts, goes_before, find_predecessors, push_loop, push, push_move,
}

module _ {ℓ} {A : Type ℓ} (higher : A → A → Bool) where
  -- The items of the queue, the highest priority first.
  pub record Represents (nodes : List (Node A)) (l : List A) : Type ℓ where
    pub items : live nodes ≡ l
    pub bottom : AtBottom nodes
    pub sorted : IsSorted higher (cores nodes)

  module _ (order : IsStrictWeak higher) where
    closed :
        (x y z : A)
        → goes_before higher x z ≡ true
        → higher z y ≡ false
        → goes_before higher x y ≡ true
    unfolding goes_before
    closed x y z p h = order.cotransitive z y x p h

    found :
        (x : A) (nodes : List (Node A)) (l : List A)
        → Represents nodes l
        → Descended
            (goes_before higher x)
            higher
            (closed x)
            nodes
            (find_predecessors higher x nodes)
    unfolding find_predecessors
    found x nodes l v =
        descend-Descended (goes_before higher x) higher (closed x) 15 nodes v.bottom v.sorted

    grown :
        (x : A) (level : ℕ) (nodes : List (Node A)) (l : List A)
        → Represents nodes l
        → (let d = find_predecessors higher x nodes in
            Represents (d.0 ++ new_node x level ∷ d.1) (place (goes_before higher x) x l))
    unfolding goes_before
    grown x level nodes l v =
        let g =
          descend-Grown (goes_before higher x) higher (closed x) x (λ y p. order.asymmetric y x p)
            (λ y p. p) level nodes (find_predecessors higher x nodes) v.sorted
            (found x nodes l v) in
        record {
          items = g.items ∙ ap (place (goes_before higher x) x) v.items;
          bottom = g.bottom;
          sorted = g.sorted;
        }

    found-Represents :
        (x : A) (nodes : List (Node A)) (l : List A)
        → Represents nodes l
        → (let d = find_predecessors higher x nodes in Represents (d.0 ++ d.1) l)
    found-Represents x nodes l v =
        let h = found x nodes l v in
        let d = find_predecessors higher x nodes in
        record {
          items = live-cores (d.0 ++ d.1) ∙ ap live_cores h.kept ∙ sym (live-cores nodes) ∙ v.items;
          bottom = AtBottom-append d.0 d.1 h.bottom.0 h.bottom.1;
          sorted = subst (IsSorted higher) (sym h.kept) v.sorted;
        }

    push_loop_lem :
        (retried : A → A) (n : ℕ) (weak : List Bool) (coins : ℕ → List Bool) (x : A)
        (nodes : List (Node A)) (l : List A)
        → failures weak < n
        → Represents nodes l
        → (let y = after_failures retried (failures weak) x in
            let r = push_loop higher retried n weak coins x nodes in
            (r.0 ≡ true) × Represents r.1 (place (goes_before higher y) y l))
    unfolding push_loop
    push_loop_lem retried zero weak coins x nodes l g v = absurd (omega arith)
    push_loop_lem retried (suc n) [] coins x nodes l g v =
        (refl, grown x (random_level max_level (coins n)) nodes l v)
    push_loop_lem retried (suc n) (false ∷ weak) coins x nodes l g v =
        (refl, grown x (random_level max_level (coins n)) nodes l v)
    push_loop_lem retried (suc n) (true ∷ weak) coins x nodes l g v =
        let d = find_predecessors higher x nodes in
        push_loop_lem retried n weak coins (retried x) (d.0 ++ d.1) l (omega arith)
          (found-Represents x nodes l v)

    place-Perm : (passes : A → Bool) (x : A) (l : List A) → Perm (place passes x l) (x ∷ l)
    unfolding place
    place-Perm passes x [] = Perm.refl (x ∷ [])
    place-Perm passes x (y ∷ ys) = elim (Bool-cases (passes y)) [
      | inl e ↦ rw e (Perm.trans (Perm.cons y (place-Perm passes x ys)) (Perm.swap x y ys))
      | inr e ↦ rw e (Perm.refl (x ∷ y ∷ ys))
    ]

    -- Under a strict weak order, with fewer than 1000 spurious failures in a row: `push` puts the item
    -- behind those of higher priority and before all others, and the queue then holds the old items
    -- and the new one. `push(T&&)` puts in what so many failed attempts have left of the item.
    pub push_by_priority :
        (moved : A → A) (weak : List Bool) (coins : ℕ → List Bool) (x : A) (nodes : List (Node A))
        (l : List A)
        → failures weak < 1000
        → Represents nodes l
        → (let y = after_failures moved (failures weak) x in
            let r = push higher weak coins x nodes in
            let r' = push_move higher moved weak coins x nodes in
            ((r.0 ≡ true)
              × Represents r.1 (place (goes_before higher x) x l)
              × Perm (place (goes_before higher x) x l) (x ∷ l))
            × (r'.0 ≡ true)
            × Represents r'.1 (place (goes_before higher y) y l))
    unfolding push push_move
    push_by_priority moved weak coins x nodes l g v =
        let h = push_loop_lem (λ y. y) max_attempts weak coins x nodes l g v in
        let h' = push_loop_lem moved max_attempts weak coins x nodes l g v in
        (
          (
            h.0,
            subst
                (λ y.
                  Represents (push_loop higher (λ z. z) max_attempts weak coins x nodes).1
                    (place (goes_before higher y) y l))
                (after_none (failures weak) x) h.1,
            place-Perm (goes_before higher x) x l,
          ),
          h'.0,
          h'.1,
        )
