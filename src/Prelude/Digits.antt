-- ===== src/Prelude/Digits.antt =====
-- `bit_or`, `bit_and` and `bit_xor` by the binary digits of their arguments.
use Prim.Native.Nat.{
  ℕ, zero, suc, ◌+◌, ◌*◌, ◌/◌, ◌%◌, ◌^◌, ◌≤◌, ◌<◌, min, max, digits, bitwise, bit_and, bit_or,
  bit_xor, differ, bit_and-bitwise, bit_or-bitwise, bit_xor-bitwise,
}
use mathlib.Core.Path.{◌≡◌, refl, sym, ap, ap₂, ◌∙◌}
use native.Mathlib.Nat.{le_refl, pow-suc}
use native.Mathlib.Omega.{arith}
use cpp_lockfree_structures.Prelude.Tests.{◌==◌, if◌then◌else◌}
use cpp_lockfree_structures.Prelude.Bits.{mod-double, pow-pos, bit_and-mask}

-- The recursion that the operations stand for, without its fuel.
module _ (z : ℕ → ℕ) (f : ℕ → ℕ → ℕ) where
  digits_fuel : (n m a b : ℕ) → a ≤ n → a ≤ m → digits z f n a b ≡ digits z f m a b
  digits_fuel zero zero zero b p q = refl
  digits_fuel zero (suc m) zero b p q = refl
  digits_fuel (suc n) zero zero b p q = refl
  digits_fuel (suc n) (suc m) zero b p q = refl
  digits_fuel zero m (suc a) b p q = absurd (omega arith)
  digits_fuel (suc n) zero (suc a) b p q = absurd (omega arith)
  digits_fuel (suc n) (suc m) (suc a) b p q =
      ap (λ d. d * 2 + f (suc a % 2) (b % 2))
        (digits_fuel n m (suc a / 2) (b / 2) (omega arith) (omega arith))

  halves :
      (a b : ℕ)
      → bitwise z f (suc a) b ≡ bitwise z f (suc a / 2) (b / 2) * 2 + f (suc a % 2) (b % 2)
  halves a b =
      omega (arith, digits_fuel a (suc a / 2) (suc a / 2) (b / 2) (omega arith) (le_refl _))

pub bit_or-halves : (a b : ℕ) → bit_or a b ≡ bit_or (a / 2) (b / 2) * 2 + max (a % 2) (b % 2)
bit_or-halves zero b = simp bit_or-bitwise (omega arith)
bit_or-halves (suc a) b = simp bit_or-bitwise (halves (λ y. y) max a b)

pub bit_and-halves : (a b : ℕ) → bit_and a b ≡ bit_and (a / 2) (b / 2) * 2 + min (a % 2) (b % 2)
bit_and-halves zero b = simp bit_and-bitwise (omega arith)
bit_and-halves (suc a) b = simp bit_and-bitwise (halves (λ y. 0) min a b)

pub bit_xor-halves : (a b : ℕ) → bit_xor a b ≡ bit_xor (a / 2) (b / 2) * 2 + differ (a % 2) (b % 2)
bit_xor-halves zero b = simp bit_xor-bitwise (omega arith)
bit_xor-halves (suc a) b = simp bit_xor-bitwise (halves (λ y. y) differ a b)

ored_with_zero : (n a : ℕ) → a ≤ n → digits (λ b. b) max n a 0 ≡ a
ored_with_zero zero zero h = refl
ored_with_zero zero (suc a) h = absurd (omega arith)
ored_with_zero (suc n) zero h = refl
ored_with_zero (suc n) (suc a) h = omega (arith, ored_with_zero n (suc a / 2) (omega arith))

bit_or-zero : (a : ℕ) → bit_or a 0 ≡ a
bit_or-zero a = bit_or-bitwise a 0 ∙ ored_with_zero a a (le_refl a)

-- The binary digit with weight `2 ^ i`.
abbrev pub digit : ℕ → ℕ → ℕ
digit zero x = x % 2
digit (suc i) x = digit i (x / 2)

half_power : (i : ℕ) → (2 ^ suc i / 2 ≡ 2 ^ i) × (2 ^ suc i % 2 ≡ 0)
half_power i = (omega (arith, pow-suc 2 i), omega (arith, pow-suc 2 i))

pub bit_and-power : (i w : ℕ) → bit_and w (2 ^ i) ≡ digit i w * 2 ^ i
bit_and-power zero w = omega (arith, bit_and-halves w 1, bit_and-mask (w / 2) 0)
bit_and-power (suc i) w =
    bit_and-halves w (2 ^ suc i)
    ∙ ap₂ (λ p q. bit_and (w / 2) p * 2 + min (w % 2) q) (half_power i).0 (half_power i).1
    ∙ grind (arith, bit_and-power i (w / 2), pow-suc 2 i)

pub or_one : (w : ℕ) → bit_or w 1 ≡ w / 2 * 2 + 1
or_one w = omega (arith, bit_or-halves w 1, bit_or-zero (w / 2))

above_one : (j w : ℕ) → digit (suc j) (bit_or w 1) ≡ digit (suc j) w
above_one j w = ap (digit j) (omega (arith, or_one w))

pub or_power : (i w : ℕ) → bit_or w (2 ^ suc i) ≡ bit_or (w / 2) (2 ^ i) * 2 + w % 2
or_power i w =
    bit_or-halves w (2 ^ suc i)
    ∙ ap₂ (λ p q. bit_or (w / 2) p * 2 + max (w % 2) q) (half_power i).0 (half_power i).1
    ∙ omega arith

pub digit-bit_or : (j i w : ℕ) → digit j (bit_or w (2 ^ i)) ≡ (if j == i then 1 else digit j w)
digit-bit_or zero zero w = omega (arith, or_one w)
digit-bit_or (suc j) zero w = above_one j w ∙ ground arith
digit-bit_or zero (suc i) w = grind (arith, or_power i w)
digit-bit_or (suc j) (suc i) w =
    ap (digit j) (omega (arith, or_power i w)) ∙ digit-bit_or j i (w / 2) ∙ ground arith

pub digit-zero : (j : ℕ) → digit j 0 ≡ 0
digit-zero zero = refl
digit-zero (suc j) = digit-zero j

pub digit-le : (j w : ℕ) → digit j w ≤ 1
digit-le zero w = omega arith
digit-le (suc j) w = digit-le j (w / 2)

differ-lt : (x y : ℕ) → x < 2 → y < 2 → differ x y < 2
differ-lt zero y p q = q
differ-lt (suc zero) zero p q = omega arith
differ-lt (suc zero) (suc y) p q = omega arith
differ-lt (suc (suc x)) y p q = absurd (omega arith)

half_xor : (a s : ℕ) → bit_xor a s / 2 ≡ bit_xor (a / 2) (s / 2)
half_xor a s =
    omega (arith, bit_xor-halves a s, differ-lt (a % 2) (s % 2) (omega arith) (omega arith))

xor_low :
    (k a s : ℕ)
    → bit_xor a s % 2 ^ suc k ≡ bit_xor (a / 2) (s / 2) % 2 ^ k * 2 + differ (a % 2) (s % 2)
xor_low k a s =
    let d = bit_xor-halves a s in
    let g = differ-lt (a % 2) (s % 2) (omega arith) (omega arith) in
    ap (λ m. bit_xor a s % m) (pow-suc 2 k)
    ∙ mod-double (2 ^ k) (bit_xor a s) (pow-pos k)
    ∙ ap₂ (λ x y. x % 2 ^ k * 2 + y) (half_xor a s) (omega (arith, d, g))

low-half :
    (k a b : ℕ) → a % 2 ^ suc k ≡ b % 2 ^ suc k → (a / 2 % 2 ^ k ≡ b / 2 % 2 ^ k) × (a % 2 ≡ b % 2)
low-half k a b h =
    let p = ap (λ m. a % m) (pow-suc 2 k) ∙ mod-double (2 ^ k) a (pow-pos k) in
    let q = ap (λ m. b % m) (pow-suc 2 k) ∙ mod-double (2 ^ k) b (pow-pos k) in
    (omega (arith, p, q, h), omega (arith, p, q, h))

-- The lowest `k` digits of an exclusive or are those of the lowest `k` digits.
pub xor-mod : (k a b s : ℕ) → a % 2 ^ k ≡ b % 2 ^ k → bit_xor a s % 2 ^ k ≡ bit_xor b s % 2 ^ k
xor-mod zero a b s h = omega arith
xor-mod (suc k) a b s h =
    let l = low-half k a b h in
    xor_low k a s
    ∙ ap₂ (λ x y. x * 2 + differ y (s % 2)) (xor-mod k (a / 2) (b / 2) (s / 2) l.0) l.1
    ∙ sym (xor_low k b s)
