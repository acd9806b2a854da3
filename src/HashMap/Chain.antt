-- ===== src/HashMap/Chain.antt =====
-- What `find_node` and `erase` of atomic_hashmap.hpp do on one chain.
use cpp_lockfree_structures.Prelude.{
  ℕ, suc, ◌-◌, ◌<◌, ◌≤◌, ◌≡◌, refl, Bool, true, false, not, ◌&&◌, Option, none, some, List, [], ◌∷◌,
  if◌then◌else◌, arith,
}
use cpp_lockfree_structures.HashMap.{Node, find_node, mark}

module _ {ℓ κ} {K : Type ℓ} {V : Type κ} (same : K → K → Bool) where
  -- The nodes of a key that are not deleted.
  unfoldable pub copies : K → List (Node K V) → ℕ
  copies k [] = 0
  copies k (c ∷ rest) =
      let later = copies k rest in if not c.deleted && same c.key k then suc later else later

  pub find_node-copies :
      (k : K) (chain : List (Node K V)) (o : Option V)
      → find_node same k chain ≡ o
      → elim o as (λ o. Type 0) [ none ↦ copies k chain ≡ 0 | some v ↦ 0 < copies k chain ]
  unfolding find_node copies
  find_node-copies k [] none e = refl
  find_node-copies k [] (some v) e = ground arith
  find_node-copies k (c ∷ rest) none e = ground (arith, find_node-copies k rest none)
  find_node-copies k (c ∷ rest) (some v) e = ground (arith, find_node-copies k rest (some v))

  pub copies-mark :
      (k : K) (chain : List (Node K V)) → copies k (mark same k chain) ≡ copies k chain - 1
  unfolding mark copies
  copies-mark k [] = refl
  copies-mark k (c ∷ rest) = ground (arith, copies-mark k rest)

  pub copies-mark_other :
      (i k : K) (chain : List (Node K V)) → copies i (mark same k chain) ≤ copies i chain
  unfolding mark copies
  copies-mark_other i k [] = omega arith
  copies-mark_other i k (c ∷ rest) = ground (arith, copies-mark_other i k rest)

  module _ (alike : (j k i : K) → same j k ≡ true → same j i ≡ true → same k i ≡ true) where
    pub find_node-mark :
        (i k : K) (chain : List (Node K V))
        → same k i ≡ false
        → find_node same i (mark same k chain) ≡ find_node same i chain
    unfolding mark find_node
    find_node-mark i k [] e = refl
    find_node-mark i k (c ∷ rest) e = ground (arith, alike c.key k i, find_node-mark i k rest e)
