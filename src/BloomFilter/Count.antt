-- ===== src/BloomFilter/Count.antt =====
-- How many bits of the filter of atomic_bloomfilter.hpp are set, and how many inserts it counts.
use cpp_lockfree_structures.Prelude.{
  ℕ, zero, suc, ◌+◌, ◌-◌, ◌*◌, ◌/◌, ◌%◌, ◌^◌, ◌≤◌, ◌<◌, ◌≡◌, ◌≢◌, refl, sym, ap, ap₂, ◌∙◌, subst,
  Bool, true, false, List, [], ◌∷◌, inl, inr, update, update_self, update_ne, ◌==◌, ==→eq,
  if◌then◌else◌, arith, Bool-cases, digit, digit-le, or_one, or_power, pow-pos, bit_and-mask,
}
use Prim.Native.Nat.{bit_or, bit_xor}
use native.Mathlib.Nat.{mod-lt}
use cpp_lockfree_structures.BloomFilter.{
  Filter, word_count, get_hash_values, set_bit, is_bit_set, set_bits, insert, approximate_size,
  popcount, bits_set_loop, bits_set, capacity,
}
use cpp_lockfree_structures.BloomFilter.Members.{is_bit_set-digit, was_set}

one_halves : (w : ℕ) → (bit_or w 1 % 2 ≡ 1) × (bit_or w 1 / 2 ≡ w / 2)
one_halves w = (omega (arith, or_one w), omega (arith, or_one w))

power_halves :
    (i w : ℕ)
    → (bit_or w (2 ^ suc i) % 2 ≡ w % 2) × (bit_or w (2 ^ suc i) / 2 ≡ bit_or (w / 2) (2 ^ i))
power_halves i w = (omega (arith, or_power i w), omega (arith, or_power i w))

popcount-bit_or :
    (n i w : ℕ) → i < n → popcount n (bit_or w (2 ^ i)) ≡ popcount n w + (1 - digit i w)
unfolding popcount
popcount-bit_or zero i w h = absurd (omega arith)
popcount-bit_or (suc n) zero w h =
    ap₂ (λ x y. x + popcount n y) (one_halves w).0 (one_halves w).1 ∙ omega arith
popcount-bit_or (suc n) (suc i) w h =
    ap₂ (λ x y. x + popcount n y) (power_halves i w).0 (power_halves i w).1
    ∙ omega (arith, popcount-bit_or n i (w / 2) (omega arith))

popcount-le : (n w : ℕ) → popcount n w ≤ n
unfolding popcount
popcount-le zero w = omega arith
popcount-le (suc n) w = omega (arith, popcount-le n (w / 2))

loop-le : (n : ℕ) (bits : ℕ → ℕ) → bits_set_loop n bits ≤ n * 64
unfolding bits_set_loop
loop-le zero bits = omega arith
loop-le (suc n) bits = omega (arith, loop-le n bits, popcount-le 64 (bits n))

-- A word that the loop does not reach does not matter.
loop_outside :
    (n i w : ℕ) (bits : ℕ → ℕ) → n ≤ i → bits_set_loop n (update bits i w) ≡ bits_set_loop n bits
unfolding bits_set_loop
loop_outside zero i w bits h = refl
loop_outside (suc n) i w bits h =
    ap₂ (λ x y. x + popcount 64 y) (loop_outside n i w bits (omega arith))
      (update_ne bits i w (λ e. absurd (omega (arith, h, e))))

loop_update :
    (n i w : ℕ) (bits : ℕ → ℕ)
    → i < n
    → bits_set_loop n (update bits i w) + popcount 64 (bits i)
      ≡ bits_set_loop n bits + popcount 64 w
unfolding bits_set_loop
loop_update zero i w bits h = absurd (omega arith)
loop_update (suc n) i w bits h = elim (Bool-cases (i == n)) [
  | inl e ↦
      let q = ==→eq i n e in
      omega (
        arith,
        loop_outside n i w bits (omega (arith, q)),
        ap (popcount 64) (update_self bits i w {j = n} (sym q)),
        ap (λ m. popcount 64 (bits m)) q,
      )
  | inr e ↦
      let g : i ≢ n = ground (arith, e) in
      omega (
        arith,
        loop_update n i w bits (omega (arith, h, g)),
        ap (popcount 64) (update_ne bits i w {j = n} (λ q. g (sym q))),
      )
]

set_bit_counts :
    (words i : ℕ) (bits : ℕ → ℕ)
    → i / 64 < words
    → bits_set_loop words (set_bit bits i).1
      ≡ bits_set_loop words bits + (if is_bit_set bits i then 0 else 1)
unfolding set_bit
set_bit_counts words i bits h =
    let w = bits (i / 64) in
    grind (
      arith,
      loop_update words (i / 64) (bit_or w (2 ^ (i % 64))) bits h,
      popcount-bit_or 64 (i % 64) w (omega arith),
      is_bit_set-digit bits i,
      digit-le (i % 64) w,
    )

-- The bits are in the first `words` words.
unfoldable pub InRange : ℕ → List ℕ → Type 0
InRange words [] = Unit
InRange words (h ∷ hs) = (h / 64 < words) × InRange words hs

set_bits_grow :
    (words : ℕ) (hs : List ℕ) (present : Bool) (bits : ℕ → ℕ)
    → InRange words hs
    → bits_set_loop words bits ≤ bits_set_loop words (set_bits hs present bits).1
unfolding set_bits InRange
set_bits_grow words [] present bits r = omega arith
set_bits_grow words (h ∷ hs) present bits r =
    let s = set_bit bits h in
    omega (
      arith,
      set_bit_counts words h bits r.0,
      set_bits_grow words hs (if s.0 then present else false) s.1 r.1,
    )

new_bit_grows :
    (words : ℕ) (hs : List ℕ) (bits : ℕ → ℕ)
    → InRange words hs
    → (set_bits hs true bits).0 ≡ false
    → suc (bits_set_loop words bits) ≤ bits_set_loop words (set_bits hs true bits).1
unfolding set_bits InRange
new_bit_grows words [] bits r n = ground (arith, n)
new_bit_grows words (h ∷ hs) bits r n = elim (Bool-cases (is_bit_set bits h)) [
  | inl s ↦
      let next = (set_bit bits h).1 in
      let was = was_set bits h ∙ s in
      let c = set_bit_counts words h bits r.0 in
      let m = subst (λ b. (set_bits hs (if b then true else false) next).0 ≡ false) was n in
      rw (set_bits, was)
        (omega
          (arith, c, ap {B = ℕ} (λ b. if b then 0 else 1) s, new_bit_grows words hs next r.1 m))
  | inr s ↦
      let next = (set_bit bits h).1 in
      let c = set_bit_counts words h bits r.0 in
      rw (set_bits, was_set bits h ∙ s)
        (omega
          (arith, c, ap {B = ℕ} (λ b. if b then 0 else 1) s, set_bits_grow words hs false next r.1))
]

positions-InRange :
    (k words hash : ℕ)
    → 2 ^ k ≡ words * 64
    → (seeds : List ℕ) → InRange words (get_hash_values k seeds hash)
unfolding get_hash_values InRange
positions-InRange k words hash e [] = tt
positions-InRange k words hash e (seed ∷ seeds) = (
  grind (arith, bit_and-mask (bit_xor hash seed) k, mod-lt (bit_xor hash seed) (pow-pos k)),
  positions-InRange k words hash e seeds,
)

-- The filter counts at most as many inserts as bits are set.
unfoldable pub IsCounted : ℕ → Filter → Type 0
IsCounted k f = approximate_size f ≤ bits_set k f

module _ {ℓ} {T : Type ℓ} (k : ℕ) (seeds : List ℕ) (hasher : T → ℕ) where
  -- The size is a multiple of 64, less than 2 ^ 64. `insert` adds one to `approximate_size` exactly if
  -- it returns true, without overflow, and does not lower `bits_set`; the invariant that
  -- `approximate_size` is at most `bits_set` is kept, and `bits_set` is at most `capacity`.
  pub insert-IsCounted :
      (words : ℕ) (x : T) (f : Filter)
      → 2 ^ k ≡ words * 64
      → 2 ^ k < 2 ^ 64
      → IsCounted k f
      → (let r = insert k seeds hasher x f in
          IsCounted k r.1
          × (approximate_size r.1 ≡ approximate_size f + (if r.0 then 1 else 0))
          × (bits_set k f ≤ bits_set k r.1)
          × (bits_set k r.1 ≤ capacity k))
  unfolding insert IsCounted approximate_size bits_set capacity
  insert-IsCounted words x f e b i =
      let hs = get_hash_values k seeds (hasher x) in
      let w : word_count k ≡ words = omega (arith, e) in
      let r = subst (λ n. InRange n hs) (sym w) (positions-InRange k words (hasher x) e seeds) in
      let grow = set_bits_grow (word_count k) hs true f.bits r in
      let top = loop-le (word_count k) f.bits in
      let top' = loop-le (word_count k) (set_bits hs true f.bits).1 in
      elim (Bool-cases (set_bits hs true f.bits).0) [
        | inl s ↦ rw s (omega (arith, i, grow), omega arith, grow, omega (arith, top', w, e))
        | inr s ↦
            let more = new_bit_grows (word_count k) hs f.bits r s in
            rw s (
              omega (arith, i, more, top, top', w, e, b),
              omega (arith, i, more, top, top', w, e, b),
              grow,
              omega (arith, top', w, e),
            )
      ]
