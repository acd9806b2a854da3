-- ===== src/RbTree/Map.antt =====
-- `insert`, `find`, `contains` and `erase` of atomic_rbtree.hpp as operations on a map, and where
-- they are not.
use cpp_lockfree_structures.Prelude.{
  ℕ, zero, suc, ◌<◌, ◌≡◌, ◌≢◌, refl, ◌∙◌, Bool, true, false, Option, none, some, List, [], ◌∷◌, ◌⊎◌,
  inl, inr, add64, sub64, arith, Option-cases,
}
use cpp_lockfree_structures.BoundedQueue.{failures}
use cpp_lockfree_structures.RbTree.{
  Tree, RbTree, fixup, place, max_attempts, insert_loop, insert, find_node, find, contains, mark,
  erase,
}
use cpp_lockfree_structures.RbTree.Lookup.{
  erased, find_node-fixup, find_node-place_self, find_node-place_other, place-mark,
  find_node-mark_self, find_node-mark_other, place-none, place_of_absent,
}

-- The two keys are ordered one way or the other.
abbrev pub Apart {ℓ} : {K : Type ℓ} → (K → K → Bool) → K → K → Type 0
Apart less i k = (less i k ≡ true) ⊎ (less k i ≡ true)

module _ {ℓ κ} {K : Type ℓ} {V : Type κ} (less : K → K → Bool) where
  added : K → V → RbTree K V → Option (Tree K V) → Bool × RbTree K V
  added k v t none = (false, t)
  added k v t (some root') = (true, record { root = fixup root'; count = add64 t.count 1 })

  insert_loop_lem :
      (n : ℕ) (weak : List Bool) (k : K) (v : V) (t : RbTree K V) (o : Option (Tree K V))
      → failures weak < n
      → place less k v t.root ≡ o
      → insert_loop less n weak k v t ≡ added k v t o
  unfolding insert_loop added
  insert_loop_lem zero weak k v t o h e = absurd (omega arith)
  insert_loop_lem (suc n) [] k v t none h e = rw (e, insert_loop) refl
  insert_loop_lem (suc n) [] k v t (some root') h e = rw (e, insert_loop) refl
  insert_loop_lem (suc n) (true ∷ weak) k v t none h e = rw (e, insert_loop) refl
  insert_loop_lem (suc n) (true ∷ weak) k v t (some root') h e =
      rw (e, insert_loop) (insert_loop_lem n weak k v t (some root') (omega arith) e)
  insert_loop_lem (suc n) (false ∷ weak) k v t none h e = rw (e, insert_loop) refl
  insert_loop_lem (suc n) (false ∷ weak) k v t (some root') h e = rw (e, insert_loop) refl

  -- If fewer than 1000 compare-exchanges fail before one succeeds, and the key is not less than
  -- itself, an insertion either stores the value, so that the key is found with the value, every key
  -- apart from it as before, and the count is one more, and then the key was not found and the walk
  -- for it ends at no erased node; or it returns false and changes nothing, and then the key was found
  -- or the walk for it ends at an erased node.
  pub insert_as_map :
      (weak : List Bool) (k : K) (v : V) (t : RbTree K V)
      → failures weak < 1000
      → less k k ≡ false
      → ((insert less weak k v t ≡ (false, t))
          × ((find less k t ≢ none) ⊎ (erased less k t.root ≡ true)))
        ⊎ ((t' : RbTree K V) × (insert less weak k v t ≡ (true, t'))
            × (find less k t ≡ none)
            × (erased less k t.root ≡ false)
            × (find less k t' ≡ some v)
            × ((i : K) → Apart less i k → find less i t' ≡ find less i t)
            × (t'.count ≡ add64 t.count 1))
  unfolding insert find added
  insert_as_map weak k v t h irr = elim (Option-cases (place less k v t.root)) [
    | inl e ↦ inl (insert_loop_lem max_attempts weak k v t none h e, place-none less k v t.root e)
    | inr (root', e) ↦ inr (
      record { root = fixup root'; count = add64 t.count 1 },
      insert_loop_lem max_attempts weak k v t (some root') h e,
      (place_of_absent less k v t.root root' e).0,
      (place_of_absent less k v t.root root' e).1,
      find_node-fixup less k root' ∙ find_node-place_self less k v t.root root' irr e,
      (λ i apart.
          find_node-fixup less i root' ∙ find_node-place_other less i k v t.root root' apart e),
      refl,
    )
  ]

  -- If its compare-exchange does not fail spuriously, `erase` returns whether the key was found; if
  -- it was, then the key is found no longer, every key apart from it is found as before, and the
  -- count is one less; if not, then nothing changes. Keys of which neither is less than the other
  -- compare alike.
  pub erase_as_map :
      ((i j k : K)
        → less k j ≡ false
        → less j k ≡ false
        → (less i j ≡ less i k) × (less j i ≡ less k i))
      → (k : K) (t : RbTree K V)
      → ((erase less false k t ≡ (false, t)) × (contains less k t ≡ false))
        ⊎ ((t' : RbTree K V) × (erase less false k t ≡ (true, t'))
            × (contains less k t ≡ true)
            × (contains less k t' ≡ false)
            × ((i : K) → Apart less i k → find less i t' ≡ find less i t)
            × (t'.count ≡ sub64 t.count 1))
  unfolding erase contains find
  erase_as_map alike k t = elim (Option-cases (find_node less k t.root)) [
    | inl e ↦ inl (rw (e, erase) refl, rw (e, contains) refl)
    | inr (v, e) ↦ inr (
      record { root = mark less k t.root; count = sub64 t.count 1 },
      rw (e, erase) refl,
      rw (e, contains) refl,
      rw (find_node-mark_self less k v t.root e, contains) refl,
      (λ i apart. find_node-mark_other less alike i k t.root apart),
      refl,
    )
  ]

  insert_refused :
      (n : ℕ) (weak : List Bool) (k : K) (v : V) (t : RbTree K V)
      → place less k v t.root ≡ none
      → insert_loop less n weak k v t ≡ (false, t)
  unfolding insert_loop
  insert_refused zero weak k v t e = refl
  insert_refused (suc n) [] k v t e = rw (e, insert_loop) refl
  insert_refused (suc n) (fails ∷ weak) k v t e = rw (e, insert_loop) refl

  -- A key that was found and is erased never comes back: whatever value is inserted under it
  -- then, and however often the compare-exchanges fail, `insert` returns false and changes
  -- nothing, while `contains` answers false.
  pub insert_after_erase :
      (weak : List Bool) (k : K) (v w : V) (t : RbTree K V)
      → find less k t ≡ some w
      → (t' : RbTree K V) × (erase less false k t ≡ (true, t'))
        × (contains less k t' ≡ false)
        × (insert less weak k v t' ≡ (false, t'))
  unfolding erase contains find insert
  insert_after_erase weak k v w t e = (
    record { root = mark less k t.root; count = sub64 t.count 1 },
    rw (e, erase) refl,
    rw (find_node-mark_self less k w t.root e, contains) refl,
    insert_refused max_attempts weak k v
        (record { root = mark less k t.root; count = sub64 t.count 1 })
        (place-mark less k v w t.root e),
  )
