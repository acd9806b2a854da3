-- ===== src/Prelude/Memory.antt =====
-- Arrays and the heap as functions from indices or addresses.
use Prim.Native.Nat.{ℕ}
use mathlib.Core.Path.{◌≡◌}
use mathlib.Core.Logic.{◌≢◌}
use native.Mathlib.Omega.{arith}
use cpp_lockfree_structures.Prelude.Tests.{◌==◌, if◌then◌else◌}

-- A write at `i`.
abbrev pub update {ℓ} : {A : Type ℓ} → (ℕ → A) → ℕ → A → ℕ → A
update f i a j = if j == i then a else f j

module _ {ℓ} {A : Type ℓ} (f : ℕ → A) where
  pub update_self : (i : ℕ) (a : A) {j : ℕ} → j ≡ i → update f i a j ≡ a
  update_self i a {j} e = ground arith

  pub update_ne : (i : ℕ) (a : A) {j : ℕ} → j ≢ i → update f i a j ≡ f j
  update_ne i a {j} e = ground arith
