-- ===== src/RbTree/Lookup.antt =====
-- What `insert` and `erase` of atomic_rbtree.hpp do to later searches.
use cpp_lockfree_structures.Prelude.{
  ◌≡◌, ◌≢◌, refl, Bool, true, false, none, some, ◌⊎◌, inl, inr, if◌then◌else◌, arith, Option-cases,
}
use cpp_lockfree_structures.RbTree.{Tree, leaf, node, fixup, place, find_node, mark}

module _ {ℓ κ} {K : Type ℓ} {V : Type κ} (less : K → K → Bool) where
  -- The walk ends at a node of the key that `erase` has marked.
  unfoldable pub erased : K → Tree K V → Bool
  erased k leaf = false
  erased k (node l j w c m r) =
      let in_left = erased k l in
      let in_right = erased k r in if less k j then in_left else if less j k then in_right else m

  pub find_node-fixup : (k : K) (t : Tree K V) → find_node less k (fixup t) ≡ find_node less k t
  unfolding fixup find_node
  find_node-fixup k leaf = refl
  find_node-fixup k (node l j w c m r) = refl

  -- The new key is found, if the comparator is irreflexive.
  pub find_node-place_self :
      (k : K) (v : V) (t t' : Tree K V)
      → less k k ≡ false
      → place less k v t ≡ some t'
      → find_node less k t' ≡ some v
  unfolding place find_node
  find_node-place_self k v leaf t' irr e = ground arith
  find_node-place_self k v (node l j w c m r) t' irr e = elim (Option-cases (place less k v l)) [
    | inl nl ↦ elim (Option-cases (place less k v r)) [
      | inl nr ↦ ground arith
      | inr (r', pr) ↦ ground (arith, find_node-place_self k v r r' irr pr)
    ]
    | inr (l', pl) ↦ elim (Option-cases (place less k v r)) [
      | inl nr ↦ ground (arith, find_node-place_self k v l l' irr pl)
      | inr (r', pr) ↦
          ground (arith, find_node-place_self k v l l' irr pl, find_node-place_self k v r r' irr pr)
    ]
  ]

  -- Other keys are found as before.
  pub find_node-place_other :
      (i k : K) (v : V) (t t' : Tree K V)
      → ((less i k ≡ true) ⊎ (less k i ≡ true))
      → place less k v t ≡ some t'
      → find_node less i t' ≡ find_node less i t
  unfolding place find_node
  find_node-place_other i k v leaf t' apart e = ground arith
  find_node-place_other i k v (node l j w c m r) t' apart e =
      elim (Option-cases (place less k v l)) [
        | inl nl ↦ elim (Option-cases (place less k v r)) [
          | inl nr ↦ ground arith
          | inr (r', pr) ↦ ground (arith, find_node-place_other i k v r r' apart pr)
        ]
        | inr (l', pl) ↦ elim (Option-cases (place less k v r)) [
          | inl nr ↦ ground (arith, find_node-place_other i k v l l' apart pl)
          | inr (r', pr) ↦ ground (
            arith,
            find_node-place_other i k v l l' apart pl,
            find_node-place_other i k v r r' apart pr,
          )
        ]
      ]

  -- A key that is found stands in the tree, so there is no place for it.
  place_of_found :
      (k : K) (v w : V) (t : Tree K V) → find_node less k t ≡ some w → place less k v t ≡ none
  unfolding place find_node
  place_of_found k v w leaf e = ground arith
  place_of_found k v w (node l j x c m r) e =
      ground (arith, place_of_found k v w l, place_of_found k v w r)

  -- A marked node keeps its key out of the tree for good.
  pub place-mark :
      (k : K) (v w : V) (t : Tree K V)
      → find_node less k t ≡ some w
      → place less k v (mark less k t) ≡ none
  unfolding place find_node mark
  place-mark k v w leaf e = ground arith
  place-mark k v w (node l j x c m r) e = ground (arith, place-mark k v w l, place-mark k v w r)

  pub find_node-mark_self :
      (k : K) (w : V) (t : Tree K V)
      → find_node less k t ≡ some w
      → find_node less k (mark less k t) ≡ none
  unfolding find_node mark
  find_node-mark_self k w leaf e = ground arith
  find_node-mark_self k w (node l j x c m r) e =
      ground (arith, find_node-mark_self k w l, find_node-mark_self k w r)

  pub find_node-mark_other :
      ((i j k : K)
        → less k j ≡ false
        → less j k ≡ false
        → (less i j ≡ less i k) × (less j i ≡ less k i))
      → (i k : K) (t : Tree K V) → ((less i k ≡ true) ⊎ (less k i ≡ true))
      → find_node less i (mark less k t) ≡ find_node less i t
  unfolding find_node mark
  find_node-mark_other alike i k leaf apart = refl
  find_node-mark_other alike i k (node l j x c m r) apart = ground (
    arith,
    alike i j k,
    find_node-mark_other alike i k l apart,
    find_node-mark_other alike i k r apart,
  )

  -- A walk that finds no place ends at the key.
  pub place-none :
      (k : K) (v : V) (t : Tree K V)
      → place less k v t ≡ none
      → (find_node less k t ≢ none) ⊎ (erased k t ≡ true)
  unfolding place erased find_node
  place-none k v leaf e = ground arith
  place-none k v (node l j x c m r) e = ground (arith, place-none k v l, place-none k v r)

  -- A walk that finds a place meets no node of the key, marked or not.
  pub place_of_absent :
      (k : K) (v : V) (t t' : Tree K V)
      → place less k v t ≡ some t'
      → (find_node less k t ≡ none) × (erased k t ≡ false)
  unfolding place find_node erased
  place_of_absent k v leaf t' e = (refl, refl)
  place_of_absent k v (node l j x c m r) t' e = elim (Option-cases (place less k v l)) [
    | inl nl ↦ elim (Option-cases (place less k v r)) [
      | inl nr ↦ ground arith
      | inr (r', pr) ↦ ground (arith, place_of_absent k v r r' pr)
    ]
    | inr (l', pl) ↦ elim (Option-cases (place less k v r)) [
      | inl nr ↦ ground (arith, place_of_absent k v l l' pl)
      | inr (r', pr) ↦ ground (arith, place_of_absent k v l l' pl, place_of_absent k v r r' pr)
    ]
  ]
