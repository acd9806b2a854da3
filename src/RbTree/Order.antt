-- ===== src/RbTree/Order.antt =====
-- The search order of the tree of atomic_rbtree.hpp.
use cpp_lockfree_structures.Prelude.{
  ℕ, zero, suc, ◌≡◌, refl, Bool, true, false, Option, none, some, List, [], ◌∷◌, inl, inr,
  Bool-cases, Option-cases,
}
use mathlib.Core.Option
use cpp_lockfree_structures.RbTree.{
  Color, Tree, leaf, node, RbTree, fixup, place, max_attempts, insert_loop, insert, find_node, mark,
  erase,
}

-- A key is above a bound, if there is one; and below.
abbrev pub Above {ℓ} : {K : Type ℓ} → (K → K → Bool) → Option K → K → Type 0
Above less none k = Unit
Above less (some lo) k = less lo k ≡ true

abbrev pub Below {ℓ} : {K : Type ℓ} → (K → K → Bool) → K → Option K → Type 0
Below less k none = Unit
Below less k (some hi) = less k hi ≡ true

module _ {ℓ κ} {K : Type ℓ} {V : Type κ} (less : K → K → Bool) where
  -- The keys of the tree lie between the bounds, in search order.
  unfoldable pub Between : Option K → Option K → Tree K V → Type 0
  Between lo hi leaf = Unit
  Between lo hi (node l j w c m r) =
      Above less lo j × Below less j hi × Between lo (some j) l × Between (some j) hi r

  unfoldable pub IsOrdered : RbTree K V → Type 0
  IsOrdered t = Between none none t.root

  Placed : Option K → Option K → Option (Tree K V) → Type 0
  Placed lo hi none = Unit
  Placed lo hi (some t) = Between lo hi t

  module _ (lo hi : Option K) (j : K) (w : V) (c : Color) (m : Bool) where
    Placed-left :
        (o : Option (Tree K V)) (r : Tree K V)
        → Above less lo j × Below less j hi × Between (some j) hi r
        → Placed lo (some j) o
        → Placed lo hi (Option.map (λ l'. node l' j w c m r) o)
    unfolding Placed Between
    Placed-left none r h p = tt
    Placed-left (some l') r h p = (h.0, h.1, p, h.2)

    Placed-right :
        (o : Option (Tree K V)) (l : Tree K V)
        → Above less lo j × Below less j hi × Between lo (some j) l
        → Placed (some j) hi o
        → Placed lo hi (Option.map (λ r'. node l j w c m r') o)
    unfolding Placed Between
    Placed-right none l h p = tt
    Placed-right (some r') l h p = (h.0, h.1, h.2, p)

  place-Placed :
      (k : K) (v : V) (lo hi : Option K) (t : Tree K V)
      → Above less lo k
      → Below less k hi
      → Between lo hi t
      → Placed lo hi (place less k v t)
  unfolding place Between Placed
  place-Placed k v lo hi leaf a b h = (a, b, tt, tt)
  place-Placed k v lo hi (node l j w c m r) a b h = elim (Bool-cases (less k j)) [
    | inl s ↦ rw s (
        Placed-left lo hi j w c m (place less k v l) r (h.0, h.1, h.3)
          (place-Placed k v lo (some j) l a s h.2))
    | inr s ↦ elim (Bool-cases (less j k)) [
      | inl s' ↦
          rw (s, s')
            (Placed-right lo hi j w c m (place less k v r) l (h.0, h.1, h.2)
              (place-Placed k v (some j) hi r s' b h.3))
      | inr s' ↦ rw (s, s') tt
    ]
  ]

  fixup-Between : (lo hi : Option K) (t : Tree K V) → Between lo hi t → Between lo hi (fixup t)
  unfolding fixup Between
  fixup-Between lo hi leaf h = tt
  fixup-Between lo hi (node l j w c m r) h = h

  mark-Between :
      (k : K) (lo hi : Option K) (t : Tree K V) → Between lo hi t → Between lo hi (mark less k t)
  unfolding mark Between
  mark-Between k lo hi leaf h = tt
  mark-Between k lo hi (node l j w c m r) h = elim (Bool-cases (less k j)) [
    | inl s ↦ rw s (h.0, h.1, mark-Between k lo (some j) l h.2, h.3)
    | inr s ↦ elim (Bool-cases (less j k)) [
      | inl s' ↦ rw (s, s') (h.0, h.1, h.2, mark-Between k (some j) hi r h.3)
      | inr s' ↦ rw (s, s') h
    ]
  ]

  insert_loop-IsOrdered :
      (n : ℕ) (weak : List Bool) (k : K) (v : V) (t : RbTree K V) (o : Option (Tree K V))
      → place less k v t.root ≡ o
      → Placed none none o
      → IsOrdered t
      → IsOrdered (insert_loop less n weak k v t).1
  unfolding insert_loop IsOrdered Placed
  insert_loop-IsOrdered zero weak k v t o e p h = h
  insert_loop-IsOrdered (suc n) [] k v t none e p h = rw (e, insert_loop) h
  insert_loop-IsOrdered (suc n) [] k v t (some root') e p h =
      rw (e, insert_loop) (fixup-Between none none root' p)
  insert_loop-IsOrdered (suc n) (true ∷ weak) k v t none e p h = rw (e, insert_loop) h
  insert_loop-IsOrdered (suc n) (true ∷ weak) k v t (some root') e p h =
      rw (e, insert_loop) (insert_loop-IsOrdered n weak k v t (some root') e p h)
  insert_loop-IsOrdered (suc n) (false ∷ weak) k v t none e p h = rw (e, insert_loop) h
  insert_loop-IsOrdered (suc n) (false ∷ weak) k v t (some root') e p h =
      rw (e, insert_loop) (fixup-Between none none root' p)

  -- Whatever compare-exchanges fail, and whatever the comparator, `insert` and `erase` of any
  -- keys keep the tree a search tree: the keys to the left of a node are less than its key, and
  -- those to the right greater.
  pub insert-erase-IsOrdered :
      (weak : List Bool) (fails : Bool) (k i : K) (v : V) (t : RbTree K V)
      → IsOrdered t
      → IsOrdered (insert less weak k v t).1 × IsOrdered (erase less fails i t).1
  unfolding insert erase IsOrdered
  insert-erase-IsOrdered weak fails k i v t h = (
    insert_loop-IsOrdered max_attempts weak k v t (place less k v t.root) refl
        (place-Placed k v none none t.root tt tt h) h,
    elim (Option-cases (find_node less i t.root)) [
      | inl e ↦ rw (e, erase) h
      | inr (w, e) ↦ elim (Bool-cases fails) [
        | inl f ↦ rw (e, f, erase) h
        | inr f ↦ rw (e, f, erase) (mark-Between i none none t.root h)
      ]
    ],
  )
