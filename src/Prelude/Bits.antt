-- ===== src/Prelude/Bits.antt =====
-- `x & (2^k - 1)` keeps the lowest k bits.
use Prim.Native.Nat.{
  ℕ, zero, suc, ◌+◌, ◌-◌, ◌*◌, ◌/◌, ◌%◌, ◌^◌, ◌≤◌, ◌<◌, min, bit_and, digits, bit_and-bitwise,
}
use mathlib.Core.Path.{◌≡◌, refl, ◌∙◌, ap}
use native.Mathlib.Nat.{pow-suc, one-le-pow, div-add-mod, mod-lt}
use native.Mathlib.Omega.{arith}

-- The recursion that `bit_and` stands for, on fuel.
abbrev masked : ℕ → ℕ → ℕ → ℕ
masked n a b = digits (λ b. zero) min n a b

masked_by_zero : (n a : ℕ) → a ≤ n → masked n a 0 ≡ 0
masked_by_zero zero zero h = refl
masked_by_zero zero (suc a) h = absurd (omega arith)
masked_by_zero (suc n) zero h = refl
masked_by_zero (suc n) (suc a) h = omega (arith, masked_by_zero n (suc a / 2) (omega arith))

pub mod-double : (m x : ℕ) → 0 < m → x % (m * 2) ≡ x / 2 % m * 2 + x % 2
mod-double m x h = grind (
  arith,
  div-add-mod (x / 2) m,
  div-add-mod x (m * 2),
  mod-lt (x / 2) h,
  mod-lt x {m = m * 2} (omega arith),
)

zero_masked : (n b : ℕ) → masked n 0 b ≡ 0
zero_masked zero b = refl
zero_masked (suc n) b = refl

masked-eq-mod : (k n a : ℕ) → a ≤ n → masked n a (2 ^ k - 1) ≡ a % 2 ^ k
masked-eq-mod zero n a h = masked_by_zero n a h ∙ omega arith
masked-eq-mod (suc k) n zero h = omega (
  arith,
  zero_masked n (2 ^ suc k - 1),
  mod-double (2 ^ k) 0 (one-le-pow k 2 (omega arith)),
  ap (λ m. 0 % m) (pow-suc 2 k),
)
masked-eq-mod (suc k) zero (suc a) h = absurd (omega arith)
masked-eq-mod (suc k) (suc n) (suc a) h = rw halved (
    omega (
      arith,
      masked-eq-mod k n (suc a / 2) (omega arith),
      mod-double (2 ^ k) (suc a) (one-le-pow k 2 (omega arith)),
      ap (λ m. suc a % m) (pow-suc 2 k),
      pow-suc 2 k,
      one-le-pow k 2 (omega arith),
    ))
  where
    halved : (2 ^ suc k - 1) / 2 ≡ 2 ^ k - 1
    halved = omega (arith, pow-suc 2 k, one-le-pow k 2 (omega arith))

pub bit_and-mask : (a k : ℕ) → bit_and a (2 ^ k - 1) ≡ a % 2 ^ k
bit_and-mask a k = bit_and-bitwise a (2 ^ k - 1) ∙ masked-eq-mod k a a (omega arith)

pub pow-pos : (k : ℕ) → 0 < 2 ^ k
pow-pos k = one-le-pow k 2 (omega arith)
