-- ===== src/LinkedList/Refine.antt =====
-- The operations of atomic_linkedlist.hpp as operations on the list of the items that are in.
use cpp_lockfree_structures.Prelude.{
  ℕ, zero, suc, ◌≤◌, ◌≡◌, refl, sym, ap, ◌∙◌, Bool, true, false, not, List, [], ◌∷◌, ◌++◌, inl, inr,
  length, if◌then◌else◌, add64, sub64, arith, Bool-cases, is_nil,
}
use cpp_lockfree_structures.LinkedList.{
  Node, LinkedList, search, remove, find, empty, skip_marked, begin, next,
}
use cpp_lockfree_structures.LinkedList.Search.{
  live, member, remove_first, find_loop-live, search-live, search-found, live-mark, empty_loop-live,
}

module _ {ℓ} {A : Type ℓ} where
  -- An insertion of `x` into `t` answers whether `x` is new, and puts a new item at the end.
  pub record Inserted (same : A → A → Bool) (x : A) (t : LinkedList A) (r : Bool × LinkedList A)
      : Type ℓ where
    pub answer : r.0 ≡ not (member same x (live t.head))
    pub items :
        live r.1.head ≡ (if member same x (live t.head) then live t.head else live t.head ++ x ∷ [])
    pub counted : r.1.count ≡ (if member same x (live t.head) then t.count else add64 t.count 1)

  module _ (same : A → A → Bool) where
    remove_first-absent :
        (x : A) (ys : List A) → member same x ys ≡ false → remove_first same x ys ≡ ys
    unfolding member remove_first
    remove_first-absent x [] e = refl
    remove_first-absent x (y ∷ ys) e = ground (arith, remove_first-absent x ys)

    -- Whatever compare-exchanges fail, `remove` answers whether an item of the list is the same,
    -- and then the first such item leaves the list and the count is one less; else the items and
    -- the count stay.
    pub remove_refines :
        (weak : List Bool) (x : A) (t : LinkedList A)
        → ((remove same weak x t).0 ≡ member same x (live t.head))
          × (live (remove same weak x t).1.head ≡ remove_first same x (live t.head))
          × ((remove same weak x t).1.count
              ≡ (if member same x (live t.head) then sub64 t.count 1 else t.count))
    unfolding remove search
    remove_refines weak x t = elim (Bool-cases (search same weak x t).found) [
      | inl f ↦ (
        rw (f, remove) (sym (found_is ∙ f)),
        rw (f, remove)
            (live-mark same x (search same weak x t).nodes ∙ ap (remove_first same x) kept),
        rw (found_is ∙ f, f, remove) refl,
      )
      | inr f ↦ (
        rw (f, remove) (sym (found_is ∙ f)),
        rw (f, remove) (kept ∙ sym (remove_first-absent x (live t.head) (found_is ∙ f))),
        rw (found_is ∙ f, f, remove) refl,
      )
    ]
      where
        found_is : member same x (live t.head) ≡ (search same weak x t).found
        found_is = sym (search-found same true weak x t.head)

        kept : live (search same weak x t).nodes ≡ live t.head
        kept = search-live same true weak x t.head

  -- The items that the iterator visits: `begin`, then `operator++` until `end`, with fuel.
  abbrev pub visit : ℕ → List (Node A) → List A
  visit zero nodes = []
  visit (suc n) [] = []
  visit (suc n) (c ∷ rest) = c.data_ ∷ visit n (next (c ∷ rest))

  visit-skip :
      (n : ℕ) (nodes : List (Node A)) → length nodes ≤ n → visit n (skip_marked nodes) ≡ live nodes
  unfolding skip_marked live next
  visit-skip zero [] h = refl
  visit-skip zero (c ∷ rest) h = absurd (omega arith)
  visit-skip (suc n) [] h = refl
  visit-skip (suc n) (c ∷ rest) h = elim (Bool-cases c.marked) [
    | inl e ↦ rw e (visit-skip (suc n) rest (omega arith))
    | inr e ↦ rw e (ap (λ l. c.data_ ∷ l) (visit-skip n rest (omega arith)))
  ]

  -- `find` answers whether an item of the list is the same, `empty` whether there are none, and
  -- the iterator visits exactly the items of the list, in order, within as many steps as the list
  -- has nodes.
  pub list_observers :
      (same : A → A → Bool) (x : A) (t : LinkedList A)
      → (find same x t ≡ member same x (live t.head))
        × (empty t ≡ is_nil (live t.head))
        × (visit (length t.head) (begin t) ≡ live t.head)
  unfolding find empty begin
  list_observers same x t = (
    find_loop-live same x t.head,
    empty_loop-live t.head,
    visit-skip (length t.head) t.head (omega arith),
  )
