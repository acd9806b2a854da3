-- ===== src/SkipList/Iterate.antt =====
-- `empty`, `size` and the iterator of atomic_skiplist.hpp.
use cpp_lockfree_structures.Prelude.{
  ℕ, zero, suc, ◌≤◌, ◌≡◌, refl, ap, ◌∙◌, Bool, none, some, List, [], ◌∷◌, is_nil, length, inl, inr,
  arith, Bool-cases,
}
use cpp_lockfree_structures.Levels.{Node, live}
use cpp_lockfree_structures.Levels.Order.{aside, AtBottom}
use cpp_lockfree_structures.SkipList.{Entry, empty, size, skip, begin, get?, next}
use cpp_lockfree_structures.SkipList.Map.{Represents}

module _ {ℓ κ} {K : Type ℓ} {V : Type κ} where
  -- A range-based for loop: what `n` rounds visit from an iterator on.
  unfoldable pub visited : ℕ → List (Node (Entry K V)) → List (Entry K V)
  visited zero it = []
  visited (suc n) it =
      let later = visited n (next it) in elim (get? it) [ none ↦ [] | some e ↦ e ∷ later ]

  visited_rest :
      (n : ℕ) (nodes : List (Node (Entry K V)))
      → AtBottom nodes
      → length nodes ≤ n
      → visited n (skip nodes) ≡ live nodes
  unfolding visited live AtBottom skip next get?
  visited_rest zero [] b g = refl
  visited_rest (suc n) [] b g = refl
  visited_rest zero (c ∷ rest) b g = absurd (omega arith)
  visited_rest (suc n) (c ∷ rest) b g = elim (Bool-cases (c.linked 0)) [
    | inr k ↦ simp (k, aside b.0 k) (visited_rest (suc n) rest b.1 (omega (arith, g)))
    | inl k ↦ elim (Bool-cases c.marked) [
      | inr m ↦ simp (k, m) (ap (λ l. c.item ∷ l) (visited_rest n rest b.1 (omega (arith, g))))
      | inl m ↦ simp (k, m) (visited_rest (suc n) rest b.1 (omega (arith, g)))
    ]
  ]

  counted :
      (nodes : List (Node (Entry K V)))
      → AtBottom nodes
      → (empty nodes ≡ is_nil (live nodes)) × (size nodes ≡ length (live nodes))
  unfolding live AtBottom empty size
  counted [] b = (refl, refl)
  counted (c ∷ rest) b = elim (Bool-cases (c.linked 0)) [
    | inr k ↦ simp (k, aside b.0 k) (counted rest b.1)
    | inl k ↦ elim (Bool-cases c.marked) [
      | inr m ↦ simp (k, m) (refl, ap suc (counted rest b.1).1)
      | inl m ↦ simp (k, m) (counted rest b.1)
    ]
  ]

  -- A loop with an iterator from `begin` to the end visits the entries in ascending order, each once,
  -- and comes to the end within as many rounds as there are nodes; `empty` and `size` agree.
  pub visit_entries :
      (less : K → K → Bool) (n : ℕ) (nodes : List (Node (Entry K V))) (l : List (Entry K V))
      → Represents less nodes l
      → length nodes ≤ n
      → (visited n (begin nodes) ≡ l) × (empty nodes ≡ is_nil l) × (size nodes ≡ length l)
  unfolding begin
  visit_entries less n nodes l h g = (
    visited_rest n nodes h.bottom g ∙ h.items,
    (counted nodes h.bottom).0 ∙ ap is_nil h.items,
    (counted nodes h.bottom).1 ∙ ap length h.items,
  )
