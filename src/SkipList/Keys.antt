-- ===== src/SkipList/Keys.antt =====
-- When two keys of atomic_skiplist.hpp are the same.
use cpp_lockfree_structures.Prelude.{
  ◌≡◌, refl, Bool, true, false, not, ◌&&◌, ◌||◌, inl, inr, if◌then◌else◌, arith, Bool-cases,
}
use cpp_lockfree_structures.Levels.Order.{IsStrictWeak}

pub right_false : (a : Bool) {b : Bool} → (a || b) ≡ false → b ≡ false
right_false true h = cc h
right_false false h = h

pub not-false : {b : Bool} → not b ≡ false → b ≡ true
not-false {b = true} h = refl
not-false {b = false} h = cc h

pub then_case {ℓ} : {A : Type ℓ} {b : Bool} {x : A} (y : A) → b ≡ true → (if b then x else y) ≡ x
then_case y e = rw e refl

pub else_case {ℓ} : {A : Type ℓ} {b : Bool} {y : A} (x : A) → b ≡ false → (if b then x else y) ≡ y
else_case x e = rw e refl

-- `j` and `k` are equivalent.
abbrev pub same {ℓ} : {K : Type ℓ} → (K → K → Bool) → K → K → Bool
same less j k = not (less j k) && not (less k j)

module _ {ℓ} {K : Type ℓ} (less : K → K → Bool) (order : IsStrictWeak less) where
  pub differs :
      (j k e : K)
      → same less j k ≡ true
      → (less k e || less e k) ≡ true
      → (less j e || less e j) ≡ true
  differs j k e s d = elim (Bool-cases (less k e)) [
    | inl b ↦ ground (arith, order.cotransitive k j e b)
    | inr b ↦ ground (arith, order.cotransitive e j k)
  ]

  pub alike :
      (j k e : K)
      → same less j k ≡ true
      → (less k e || less e k) ≡ false
      → (less j e || less e j) ≡ false
  alike j k e s d = elim (Bool-cases (less j e || less e j)) [
    | inl b ↦ absurd (cc (differs k j e (ground (arith, s)) b, d))
    | inr b ↦ b
  ]

  pub unlike :
      (j k e : K)
      → same less j k ≡ false
      → (less k e || less e k) ≡ false
      → (less j e || less e j) ≡ true
  unlike j k e s d = elim (Bool-cases (less j e || less e j)) [
    | inl b ↦ b
    | inr b ↦ ground (arith, s, alike j e k (ground (arith, b)) (ground (arith, d)))
  ]
