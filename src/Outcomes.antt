-- ===== src/Outcomes.antt =====
-- The outcomes of a call's compare-exchanges, where several of them may fail spuriously: `true` is a
-- failure, and all succeed once the list is used up.
use cpp_lockfree_structures.Prelude.{
  ℕ, zero, suc, ◌≡◌, refl, Bool, true, false, List, [], ◌∷◌, arith,
}

-- The outcome of the next compare-exchange, and the outcomes after it.
abbrev pub head_fails : List Bool → Bool
head_fails [] = false
head_fails (fails ∷ weak) = fails

abbrev pub tail : List Bool → List Bool
tail [] = []
tail (fails ∷ weak) = weak

-- The failures that are left.
abbrev pub spurious : List Bool → ℕ
spurious [] = 0
spurious (true ∷ weak) = suc (spurious weak)
spurious (false ∷ weak) = spurious weak

pub tail-spurious :
    (weak : List Bool) → head_fails weak ≡ true → suc (spurious (tail weak)) ≡ spurious weak
tail-spurious [] e = ground arith
tail-spurious (true ∷ weak) e = refl
tail-spurious (false ∷ weak) e = ground arith

pub spurious-tail :
    (weak : List Bool) → head_fails weak ≡ false → spurious (tail weak) ≡ spurious weak
spurious-tail [] e = refl
spurious-tail (true ∷ weak) e = ground arith
spurious-tail (false ∷ weak) e = refl

-- What `n` failed attempts leave of the item, where each makes `retried` of it.
abbrev pub after_failures {ℓ} : {A : Type ℓ} → (A → A) → ℕ → A → A
after_failures retried zero x = x
after_failures retried (suc n) x = after_failures retried n (retried x)

pub after_none {ℓ} : {A : Type ℓ} (n : ℕ) (x : A) → after_failures (λ y. y) n x ≡ x
after_none zero x = refl
after_none (suc n) x = after_none n x
