-- ===== src/PriorityQueue/Pop.antt =====
-- `pop` and the observers of atomic_priority_queue.hpp.
use cpp_lockfree_structures.Prelude.{
  suc, ◌+◌, ◌<◌, ◌≡◌, refl, sym, ap, ◌∙◌, ap₂, subst, Bool, true, false, Option, List, [], ◌∷◌,
  head?, is_nil, length, inl, inr, Bool-cases,
}
use cpp_lockfree_structures.Outcomes.{spurious}
use cpp_lockfree_structures.Levels.{Node, live}
use cpp_lockfree_structures.Levels.Order.{
  aside, Core, core, cores, live_cores, live-cores, AtBottom, Ahead, IsSorted,
}
use cpp_lockfree_structures.PriorityQueue.{max_attempts, pop, top, empty, size}
use cpp_lockfree_structures.PriorityQueue.Push.{Represents}
use cpp_lockfree_structures.PriorityQueue.Popped.{lingering, rest_of, pop_loop_lem, unlinked}

module _ {ℓ} {A : Type ℓ} (higher : A → A → Bool) where
  -- What `top` leaves.
  record Peeked (nodes : List (Node A)) (r : Option A × List (Node A)) : Type ℓ where
    seen : r.0 ≡ head? (live nodes)
    kept : cores r.1 ≡ cores nodes
    bottom : AtBottom r.1

  top_lem : (nodes : List (Node A)) → AtBottom nodes → Peeked nodes (top nodes)
  unfolding top live AtBottom
  top_lem [] b = record { seen = refl; kept = refl; bottom = tt }
  top_lem (c ∷ rest) b = elim (Bool-cases (c.linked 0)) [
    | inr k ↦
        let h = top_lem rest b.1 in
        simp k (record {
          seen = simp (aside b.0 k) h.seen;
          kept = ap (λ l. core c ∷ l) h.kept;
          bottom = (b.0, h.bottom);
        })
    | inl k ↦ elim (Bool-cases c.marked) [
      | inr m ↦ simp (k, m) (record { seen = simp m refl; kept = refl; bottom = b })
      | inl m ↦
          let h = top_lem rest b.1 in
          simp (k, m)
            (record {
              seen = simp m h.seen;
              kept =
                  ap₂ (λ x l. x ∷ l)
                    (ap₂ (λ x y. (x, y)) (unlinked higher c).1 (unlinked higher c).0) h.kept;
              bottom = ((λ unmarked. cc (unlinked higher c).0), h.bottom);
            })
    ]
  ]

  counted :
      (nodes : List (Node A))
      → AtBottom nodes
      → (empty nodes ≡ is_nil (live nodes)) × (size nodes ≡ length (live nodes))
  unfolding live AtBottom empty size
  counted [] b = (refl, refl)
  counted (c ∷ rest) b = elim (Bool-cases (c.linked 0)) [
    | inr k ↦ simp (k, aside b.0 k) (counted rest b.1)
    | inl k ↦ elim (Bool-cases c.marked) [
      | inr m ↦ simp (k, m) (refl, ap suc (counted rest b.1).1)
      | inl m ↦ simp (k, m) (counted rest b.1)
    ]
  ]

  -- No item has a higher priority than `x`.
  abbrev pub NoneAbove : A → List A → Type 0
  NoneAbove x [] = Unit
  NoneAbove x (y ∷ ys) = (higher y x ≡ false) × NoneAbove x ys

  -- The first item is one of the highest priority.
  abbrev pub IsHighest : List A → Type 0
  IsHighest [] = Unit
  IsHighest (x ∷ xs) = NoneAbove x xs

  Ahead-NoneAbove : (x : A) (cs : List (Core A)) → Ahead higher x cs → NoneAbove x (live_cores cs)
  unfolding Ahead
  Ahead-NoneAbove x [] a = tt
  Ahead-NoneAbove x ((y, true) ∷ cs) a = Ahead-NoneAbove x cs a.1
  Ahead-NoneAbove x ((y, false) ∷ cs) a = (a.0 refl, Ahead-NoneAbove x cs a.1)

  IsSorted-IsHighest : (cs : List (Core A)) → IsSorted higher cs → IsHighest (live_cores cs)
  unfolding IsSorted
  IsSorted-IsHighest [] s = tt
  IsSorted-IsHighest ((x, true) ∷ cs) s = IsSorted-IsHighest cs s.1
  IsSorted-IsHighest ((x, false) ∷ cs) s = Ahead-NoneAbove x cs s.0

  -- If moving leaves an item as it is, and the spurious failures and the marked nodes still in the
  -- chain of level 0 are fewer than 1000 together: `pop` takes the first item, none of those in the
  -- queue has a higher priority, and the others stay in their order.
  pub pop_by_priority :
      (moved : A → A) (weak : List Bool) (nodes : List (Node A)) (l : List A)
      → ((x : A) → moved x ≡ x)
      → spurious weak + lingering nodes < 1000
      → Represents higher nodes l
      → ((pop moved weak nodes).0 ≡ head? l)
        × IsHighest l
        × Represents higher (pop moved weak nodes).1 (rest_of l)
  unfolding pop
  pop_by_priority moved weak nodes l keeps g v =
      let h = pop_loop_lem higher moved keeps max_attempts weak nodes g v.bottom v.sorted in
      (
        h.taken ∙ ap head? v.items,
        subst IsHighest (sym (live-cores nodes) ∙ v.items)
            (IsSorted-IsHighest (cores nodes) v.sorted),
        record { items = h.items ∙ ap rest_of v.items; bottom = h.bottom; sorted = h.sorted },
      )

  -- `top` returns the first item and keeps all, though it unlinks marked nodes; `empty` and `size`
  -- agree with the list.
  pub priority_observers :
      (nodes : List (Node A)) (l : List A)
      → Represents higher nodes l
      → ((top nodes).0 ≡ head? l)
        × Represents higher (top nodes).1 l
        × (empty nodes ≡ is_nil l)
        × (size nodes ≡ length l)
  priority_observers nodes l v =
      let h = top_lem nodes v.bottom in
      let k = counted nodes v.bottom in
      (
        h.seen ∙ ap head? v.items,
        record {
          items =
              live-cores (top nodes).1 ∙ ap live_cores h.kept ∙ sym (live-cores nodes) ∙ v.items;
          bottom = h.bottom;
          sorted = subst (IsSorted higher) (sym h.kept) v.sorted;
        },
        k.0 ∙ ap is_nil v.items,
        k.1 ∙ ap length v.items,
      )
