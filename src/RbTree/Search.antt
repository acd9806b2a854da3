-- ===== src/RbTree/Search.antt =====
-- A search through the entries of the tree of atomic_rbtree.hpp, in order.
use cpp_lockfree_structures.Prelude.{
  ◌≡◌, refl, ap, Bool, true, false, Option, none, some, List, [], ◌∷◌, ◌++◌, inl, inr,
  if◌then◌else◌, Bool-cases,
}
use cpp_lockfree_structures.RbTree.Order.{Above, Below}
use cpp_lockfree_structures.RbTree.Visit.{unmarked}

module _ {ℓ κ} {K : Type ℓ} {V : Type κ} where
  pub unmarked-append :
      (xs ys : List (Bool × K × V)) → unmarked (xs ++ ys) ≡ unmarked xs ++ unmarked ys
  unfolding unmarked
  unmarked-append [] ys = refl
  unmarked-append ((true, k, v) ∷ xs) ys = unmarked-append xs ys
  unmarked-append ((false, k, v) ∷ xs) ys = ap (λ es. (k, v) ∷ es) (unmarked-append xs ys)

  module _ (less : K → K → Bool) where
    -- The keys ascend, between the bounds.
    unfoldable pub Ascends : Option K → Option K → List (K × V) → Type 0
    Ascends lo hi [] = Unit
    Ascends lo hi ((k, v) ∷ es) = Above less lo k × Below less k hi × Ascends (some k) hi es

    -- The value of the first entry whose key is neither less nor greater.
    unfoldable pub lookup : K → List (K × V) → Option V
    lookup k [] = none
    lookup k ((j, v) ∷ es) =
        let later = lookup k es in if less k j then later else if less j k then later else some v

    pub lookup-append :
        (k : K) (xs ys : List (K × V))
        → lookup k (xs ++ ys) ≡ elim (lookup k xs) [ none ↦ lookup k ys | some v ↦ some v ]
    unfolding lookup
    lookup-append k [] ys = refl
    lookup-append k ((j, v) ∷ xs) ys = elim (Bool-cases (less k j)) [
      | inl s ↦ rw s (lookup-append k xs ys)
      | inr s ↦ elim (Bool-cases (less j k)) [
        | inl s' ↦ rw (s, s') (lookup-append k xs ys)
        | inr s' ↦ rw (s, s') refl
      ]
    ]

    or_none : (o p : Option V) → p ≡ none → elim o [ none ↦ p | some v ↦ some v ] ≡ o
    or_none none p e = e
    or_none (some v) p e = refl

    -- The entries of a node, when the key is not among those on one side.
    pub lookup-left :
        (k : K) (xs ys : List (Bool × K × V)) (m : Bool) (j : K) (w : V)
        → less k j ≡ true
        → lookup k (unmarked ys) ≡ none
        → lookup k (unmarked (xs ++ (m, j, w) ∷ ys)) ≡ lookup k (unmarked xs)
    unfolding lookup unmarked
    lookup-left k xs ys true j w s e =
        rw (unmarked-append xs ((true, j, w) ∷ ys), lookup-append k (unmarked xs) (unmarked ys))
          (or_none (lookup k (unmarked xs)) (lookup k (unmarked ys)) e)
    lookup-left k xs ys false j w s e =
        rw
          (
            unmarked-append xs ((false, j, w) ∷ ys),
            lookup-append k (unmarked xs) ((j, w) ∷ unmarked ys),
          )
          (or_none (lookup k (unmarked xs)) (lookup k ((j, w) ∷ unmarked ys)) (rw s e))

    pub lookup-right :
        (k : K) (xs ys : List (Bool × K × V)) (m : Bool) (j : K) (w : V)
        → less k j ≡ false
        → less j k ≡ true
        → lookup k (unmarked xs) ≡ none
        → lookup k (unmarked (xs ++ (m, j, w) ∷ ys)) ≡ lookup k (unmarked ys)
    unfolding lookup unmarked
    lookup-right k xs ys true j w s s' e =
        rw (unmarked-append xs ((true, j, w) ∷ ys), lookup-append k (unmarked xs) (unmarked ys), e)
          refl
    lookup-right k xs ys false j w s s' e =
        rw
          (
            unmarked-append xs ((false, j, w) ∷ ys),
            lookup-append k (unmarked xs) ((j, w) ∷ unmarked ys),
            e,
            s,
            s',
          )
          refl

    pub lookup-here :
        (k : K) (xs ys : List (Bool × K × V)) (m : Bool) (j : K) (w : V)
        → less k j ≡ false
        → less j k ≡ false
        → lookup k (unmarked xs) ≡ none
        → lookup k (unmarked ys) ≡ none
        → lookup k (unmarked (xs ++ (m, j, w) ∷ ys)) ≡ (if m then none else some w)
    unfolding lookup unmarked
    lookup-here k xs ys true j w s s' e e' =
        rw
          (
            unmarked-append xs ((true, j, w) ∷ ys),
            lookup-append k (unmarked xs) (unmarked ys),
            e,
            e',
          )
          refl
    lookup-here k xs ys false j w s s' e e' =
        rw
          (
            unmarked-append xs ((false, j, w) ∷ ys),
            lookup-append k (unmarked xs) ((j, w) ∷ unmarked ys),
            e,
            s,
            s',
          )
          refl
