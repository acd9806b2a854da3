-- ===== src/RbTree/Entries.antt =====
-- The entries of the tree of atomic_rbtree.hpp, as a sorted list.
use cpp_lockfree_structures.Prelude.{
  suc, ◌≡◌, refl, sym, ◌∙◌, Bool, true, false, Option, none, some, List, [], ◌∷◌, ◌++◌, inl, inr,
  Bool-cases, arith,
}
use cpp_lockfree_structures.RbTree.{Tree, leaf, node, RbTree, find_node, find}
use cpp_lockfree_structures.RbTree.Iterator.{begin}
use cpp_lockfree_structures.RbTree.Order.{Above, Below, Between, IsOrdered}
use cpp_lockfree_structures.RbTree.Visit.{inorder, unmarked, nodes, visit, visit_in_order}
use cpp_lockfree_structures.RbTree.Search.{
  unmarked-append, Ascends, lookup, lookup-left, lookup-right, lookup-here,
}

module _ {ℓ} {K : Type ℓ} (less : K → K → Bool)
    (trans : (i j k : K) → less i j ≡ true → less j k ≡ true → less i k ≡ true) where
  Below-less : (hi : Option K) (i j : K) → less i j ≡ true → Below less j hi → Below less i hi
  Below-less none i j s b = tt
  Below-less (some hi) i j s b = trans i j hi s b

module _ {ℓ κ} {K : Type ℓ} {V : Type κ} (less : K → K → Bool) where
  module _ (trans : (i j k : K) → less i j ≡ true → less j k ≡ true → less i k ≡ true) where
    Ascends-from :
        (lo hi : Option K) (j : K) (ys : List (K × V))
        → Above less lo j
        → Ascends less (some j) hi ys
        → Ascends less lo hi ys
    unfolding Ascends
    Ascends-from lo hi j [] a h = tt
    Ascends-from none hi j ((k, v) ∷ ys) a h = (tt, h.1, h.2)
    Ascends-from (some lo) hi j ((k, v) ∷ ys) a h = (trans lo j k a h.0, h.1, h.2)

    Ascends-append :
        (lo hi : Option K) (j : K) (xs ys : List (K × V))
        → Above less lo j
        → Below less j hi
        → Ascends less lo (some j) xs
        → Ascends less (some j) hi ys
        → Ascends less lo hi (xs ++ ys)
    unfolding Ascends
    Ascends-append lo hi j [] ys a b p q = Ascends-from lo hi j ys a q
    Ascends-append lo hi j ((k, v) ∷ xs) ys a b p q =
        (p.0, Below-less less trans hi k j p.1 b, Ascends-append (some k) hi j xs ys p.1 b p.2 q)

    Ascends-between :
        (lo hi : Option K) (j : K) (w : V) (xs ys : List (K × V))
        → Above less lo j
        → Below less j hi
        → Ascends less lo (some j) xs
        → Ascends less (some j) hi ys
        → Ascends less lo hi (xs ++ (j, w) ∷ ys)
    unfolding Ascends
    Ascends-between lo hi j w [] ys a b p q = (a, b, q)
    Ascends-between lo hi j w ((k, v) ∷ xs) ys a b p q =
        (p.0, Below-less less trans hi k j p.1 b, Ascends-between (some k) hi j w xs ys p.1 b p.2 q)

    -- The entries of a node of the tree, between those of its subtrees.
    Ascends-node :
        (lo hi : Option K) (xs ys : List (Bool × K × V)) (m : Bool) (j : K) (w : V)
        → Above less lo j
        → Below less j hi
        → Ascends less lo (some j) (unmarked xs)
        → Ascends less (some j) hi (unmarked ys)
        → Ascends less lo hi (unmarked (xs ++ (m, j, w) ∷ ys))
    unfolding Ascends unmarked
    Ascends-node lo hi xs ys true j w a b p q =
        rw (unmarked-append xs ((true, j, w) ∷ ys))
          (Ascends-append lo hi j (unmarked xs) (unmarked ys) a b p q)
    Ascends-node lo hi xs ys false j w a b p q =
        rw (unmarked-append xs ((false, j, w) ∷ ys))
          (Ascends-between lo hi j w (unmarked xs) (unmarked ys) a b p q)

    inorder-Ascends :
        (lo hi : Option K) (t : Tree K V)
        → Between less lo hi t
        → Ascends less lo hi (unmarked (inorder t))
    unfolding Between inorder Ascends unmarked
    inorder-Ascends lo hi leaf h = tt
    inorder-Ascends lo hi (node l j w c m r) h =
        Ascends-node lo hi (inorder l) (inorder r) m j w h.0 h.1 (inorder-Ascends lo (some j) l h.2)
          (inorder-Ascends (some j) hi r h.3)

    -- A key outside of the bounds of a subtree is not in it.
    lookup-Above :
        (k : K) (lo hi : Option K) (es : List (K × V))
        → ((i : K) → Above less lo i → less k i ≡ true)
        → Ascends less lo hi es
        → lookup less k es ≡ none
    unfolding lookup Ascends
    lookup-Above k lo hi [] out h = refl
    lookup-Above k lo hi ((j, w) ∷ es) out h =
        rw (out j h.0) (lookup-Above k (some j) hi es (λ i a. trans k j i (out j h.0) a) h.2)

    lookup-Below :
        (k : K) (lo hi : Option K) (es : List (K × V))
        → ((i : K) → Below less i hi → less i k ≡ true)
        → Ascends less lo hi es
        → lookup less k es ≡ none
    unfolding lookup Ascends
    lookup-Below k lo hi [] out h = refl
    lookup-Below k lo hi ((j, w) ∷ es) out h =
        simp (out j h.1, lookup-Below k (some j) hi es out h.2) (ground arith)

    module _
        (alike : (i j k : K)
          → less k j ≡ false
          → less j k ≡ false
          → (less i j ≡ less i k) × (less j i ≡ less k i)) where
      find_node-lookup :
          (k : K) (lo hi : Option K) (t : Tree K V)
          → Between less lo hi t
          → lookup less k (unmarked (inorder t)) ≡ find_node less k t
      unfolding Between inorder find_node lookup unmarked
      find_node-lookup k lo hi leaf h = refl
      find_node-lookup k lo hi (node l j w c m r) h = elim (Bool-cases (less k j)) [
        | inl s ↦ rw s (
            lookup-left less k (inorder l) (inorder r) m j w s (
              lookup-Above k (some j) hi (unmarked (inorder r)) (λ i a. trans k j i s a)
                (inorder-Ascends (some j) hi r h.3))
            ∙ find_node-lookup k lo (some j) l h.2)
        | inr s ↦ elim (Bool-cases (less j k)) [
          | inl s' ↦
              rw (s, s')
                (lookup-right less k (inorder l) (inorder r) m j w s s' (
                    lookup-Below k lo (some j) (unmarked (inorder l)) (λ i b. trans i j k b s')
                      (inorder-Ascends lo (some j) l h.2))
                  ∙ find_node-lookup k (some j) hi r h.3)
          | inr s' ↦
              rw (s, s')
                (lookup-here less k (inorder l) (inorder r) m j w s s'
                  (lookup-Below k lo (some j) (unmarked (inorder l))
                    (λ i b. sym (alike i j k s s').0 ∙ b) (inorder-Ascends lo (some j) l h.2))
                  (lookup-Above k (some j) hi (unmarked (inorder r))
                    (λ i a. sym (alike i j k s s').1 ∙ a) (inorder-Ascends (some j) hi r h.3)))
        ]
      ]

      -- For a strict weak order, a loop over an ordered tree goes through entries with ascending
      -- keys, and `find` of any key gives what a search through these entries gives.
      pub iterated_entries :
          (t : RbTree K V)
          → IsOrdered less t
          → (es : List (K × V)) × (visit
                (suc (nodes t.root))
                (nodes t.root)
                (begin (nodes t.root) t)
              ≡ some es)
            × Ascends less none none es
            × ((k : K) → find less k t ≡ lookup less k es)
      unfolding IsOrdered find
      iterated_entries t h = (
        unmarked (inorder t.root),
        visit_in_order t,
        inorder-Ascends none none t.root h,
        λ k. sym (find_node-lookup k none none t.root h),
      )
