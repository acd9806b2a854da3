-- ===== src/BloomFilter/Members.antt =====
-- What atomic_bloomfilter.hpp answers: `insert`, `contains` and `clear`.
use cpp_lockfree_structures.Prelude.{
  ℕ, ◌-◌, ◌/◌, ◌%◌, ◌^◌, ◌≡◌, refl, sym, ap, ap₂, ◌∙◌, Bool, true, false, not, ◌&&◌, ◌||◌, List, [],
  ◌∷◌, inl, inr, bit_and, ◌==◌, ==→eq, if◌then◌else◌, arith, Bool-cases, digit, digit-zero,
  digit-le, digit-bit_or, bit_and-power, bit_and-mask, xor-mod, pow-pos,
}
use Prim.Native.Nat.{bit_xor}
use cpp_lockfree_structures.BloomFilter.{
  Filter, get_hash_values, set_bit, is_bit_set, set_bits, all_set, clear, init, insert, contains,
}

masked_digit : (i w : ℕ) → not (bit_and w (2 ^ i) == 0) ≡ (digit i w == 1)
masked_digit i w = grind (arith, bit_and-power i w, digit-le i w, pow-pos i)

pub is_bit_set-digit :
    (bits : ℕ → ℕ) (j : ℕ) → is_bit_set bits j ≡ (digit (j % 64) (bits (j / 64)) == 1)
unfolding is_bit_set
is_bit_set-digit bits j = masked_digit (j % 64) (bits (j / 64))

-- `fetch_or` sets the bit and leaves the others.
pub is_bit_set-set_bit :
    (bits : ℕ → ℕ) (i j : ℕ) → is_bit_set (set_bit bits i).1 j ≡ ((j == i) || is_bit_set bits j)
unfolding set_bit
is_bit_set-set_bit bits i j =
    is_bit_set-digit (set_bit bits i).1 j
    ∙ grind (arith, digit-bit_or (j % 64) (i % 64) (bits (i / 64)), is_bit_set-digit bits j)

abbrev pub contains_bit : List ℕ → ℕ → Bool
contains_bit [] j = false
contains_bit (h ∷ hs) j = (j == h) || contains_bit hs j

is_bit_set-set_bits :
    (hs : List ℕ) (present : Bool) (bits : ℕ → ℕ) (j : ℕ)
    → is_bit_set (set_bits hs present bits).1 j ≡ (contains_bit hs j || is_bit_set bits j)
unfolding set_bits
is_bit_set-set_bits [] present bits j = refl
is_bit_set-set_bits (h ∷ hs) present bits j =
    is_bit_set-set_bits hs (if (set_bit bits h).0 then present else false) (set_bit bits h).1 j
    ∙ ap (λ b. contains_bit hs j || b) (is_bit_set-set_bit bits h j)
    ∙ ground arith

-- Every one of `hs` passes.
abbrev pub all_pass : (ℕ → Bool) → List ℕ → Bool
all_pass p [] = true
all_pass p (h ∷ hs) = let later = all_pass p hs in if p h then later else false

all_set_lem : (hs : List ℕ) (bits : ℕ → ℕ) → all_set hs bits ≡ all_pass (is_bit_set bits) hs
unfolding all_set
all_set_lem [] bits = refl
all_set_lem (h ∷ hs) bits = ap (λ b. if is_bit_set bits h then b else false) (all_set_lem hs bits)

all_pass-ext :
    (p q : ℕ → Bool) (hs : List ℕ) → ((j : ℕ) → p j ≡ q j) → all_pass p hs ≡ all_pass q hs
all_pass-ext p q [] e = refl
all_pass-ext p q (h ∷ hs) e = ap₂ (λ a b. if a then b else false) (e h) (all_pass-ext p q hs e)

unchanged :
    (bits : ℕ → ℕ) (h j : ℕ)
    → is_bit_set bits h ≡ true
    → is_bit_set (set_bit bits h).1 j ≡ is_bit_set bits j
unchanged bits h j s =
    is_bit_set-set_bit bits h j
    ∙ elim (Bool-cases (j == h)) [ inl e ↦ rw (e, ==→eq j h e) (sym s) | inr e ↦ rw e refl ]

all_set-unchanged :
    (bits : ℕ → ℕ) (h : ℕ) (hs : List ℕ)
    → is_bit_set bits h ≡ true
    → all_set hs (set_bit bits h).1 ≡ all_set hs bits
all_set-unchanged bits h hs s =
    all_set_lem hs (set_bit bits h).1
    ∙ all_pass-ext (is_bit_set (set_bit bits h).1) (is_bit_set bits) hs (λ j. unchanged bits h j s)
    ∙ sym (all_set_lem hs bits)

pub was_set : (bits : ℕ → ℕ) (h : ℕ) → (set_bit bits h).0 ≡ is_bit_set bits h
unfolding set_bit is_bit_set
was_set bits h = refl

set_bits-all_set :
    (hs : List ℕ) (present : Bool) (bits : ℕ → ℕ)
    → (set_bits hs present bits).0 ≡ (present && all_set hs bits)
unfolding set_bits all_set
set_bits-all_set [] present bits = ground arith
set_bits-all_set (h ∷ hs) present bits =
    set_bits-all_set hs (if (set_bit bits h).0 then present else false) (set_bit bits h).1
    ∙ elim (Bool-cases (is_bit_set bits h)) [
      | inl s ↦ rw (was_set bits h ∙ s, s) (ap (λ b. present && b) (all_set-unchanged bits h hs s))
      | inr s ↦ rw (was_set bits h ∙ s, s) (ground arith)
    ]

all_pass_mono :
    (p q : ℕ → Bool) (hs : List ℕ)
    → ((j : ℕ) → p j ≡ true → q j ≡ true)
    → all_pass p hs ≡ true
    → all_pass q hs ≡ true
all_pass_mono p q [] m h = refl
all_pass_mono p q (h ∷ hs) m a = elim (Bool-cases (p h)) [
  | inl e ↦ rw (m h e) (all_pass_mono p q hs m (ground (arith, a, e)))
  | inr e ↦ absurd (ground (arith, a, e))
]

contains_own :
    (hs gs : List ℕ)
    → ((j : ℕ) → contains_bit hs j ≡ true → contains_bit gs j ≡ true)
    → all_pass (contains_bit gs) hs ≡ true
contains_own [] gs m = refl
contains_own (h ∷ hs) gs m =
    rw (m h (ground arith)) (contains_own hs gs (λ j e. m j (ground (arith, e))))

no_bit : (j : ℕ) → is_bit_set (λ i. 0) j ≡ false
no_bit j = is_bit_set-digit (λ i. 0) j ∙ rw (digit-zero (j % 64)) refl

same_hashes :
    (k a b : ℕ)
    → a % 2 ^ k ≡ b % 2 ^ k
    → (seeds : List ℕ) → get_hash_values k seeds a ≡ get_hash_values k seeds b
unfolding get_hash_values
same_hashes k a b h [] = refl
same_hashes k a b h (seed ∷ seeds) =
    ap₂ (λ x xs. x ∷ xs)
      (bit_and-mask (bit_xor a seed) k
        ∙ xor-mod k a b seed h
        ∙ sym (bit_and-mask (bit_xor b seed) k))
      (same_hashes k a b h seeds)

module _ {ℓ} {T : Type ℓ} (k : ℕ) (seeds : List ℕ) (hasher : T → ℕ) where
  abbrev pub positions : T → List ℕ
  positions x = get_hash_values k seeds (hasher x)

  -- The inserts of a list of items, one after another.
  abbrev pub insert_all : List T → Filter → Filter
  insert_all [] f = f
  insert_all (x ∷ xs) f = insert_all xs (insert k seeds hasher x f).1

  -- `insert` returns true exactly if `contains` answered false; after it, `contains` answers true for
  -- an item exactly if each of its positions was set before or is one of the new item's, so it
  -- answers true for the new item and for all that it answered true for before.
  pub insert_answers :
      (x y : T) (f : Filter)
      → (let r = insert k seeds hasher x f in
          (r.0 ≡ not (contains k seeds hasher x f))
          × (contains k seeds hasher y r.1
              ≡ all_pass (λ j. contains_bit (positions x) j || is_bit_set f.bits j) (positions y))
          × (contains k seeds hasher x r.1 ≡ true)
          × (contains k seeds hasher y f ≡ true → contains k seeds hasher y r.1 ≡ true))
  unfolding insert contains
  insert_answers x y f =
      let after = (set_bits (positions x) true f.bits).1 in
      let exact : (z : T)
          → all_set (positions z) after
            ≡ all_pass (λ j. contains_bit (positions x) j || is_bit_set f.bits j) (positions z) =
        (λ z.
          all_set_lem (positions z) after
          ∙ all_pass-ext (is_bit_set after)
              (λ j. contains_bit (positions x) j || is_bit_set f.bits j) (positions z)
              (is_bit_set-set_bits (positions x) true f.bits)) in
      (
        ap not (set_bits-all_set (positions x) true f.bits),
        exact y,
        exact x
            ∙ all_pass_mono (contains_bit (positions x))
                (λ j. contains_bit (positions x) j || is_bit_set f.bits j) (positions x)
                (λ j e. rw e refl) (contains_own (positions x) (positions x) (λ j e. e)),
        λ h.
            exact y
            ∙ all_pass_mono (is_bit_set f.bits)
                (λ j. contains_bit (positions x) j || is_bit_set f.bits j) (positions y)
                (λ j e. rw e (ground arith)) (sym (all_set_lem (positions y) f.bits) ∙ h),
      )

  stays :
      (x : T) (ys : List T) (f : Filter)
      → contains k seeds hasher x f ≡ true
      → contains k seeds hasher x (insert_all ys f) ≡ true
  stays x [] f h = h
  stays x (y ∷ ys) f h = stays x ys (insert k seeds hasher y f).1 ((insert_answers y x f).3 h)

  absent :
      (seed : ℕ) (rest : List ℕ) (x : T)
      → seeds ≡ seed ∷ rest
      → contains k seeds hasher x init ≡ false
  unfolding contains get_hash_values all_set init
  absent seed rest x e = rw e (rw (no_bit (bit_and (bit_xor (hasher x) seed) (2 ^ k - 1))) refl)

  -- There are no false negatives: an item that was inserted is found after any further inserts.
  pub no_false_negatives :
      (x : T) (before after : List T)
      → contains k seeds hasher x
          (insert_all after (insert k seeds hasher x (insert_all before init)).1)
        ≡ true
  no_false_negatives x before after =
      stays x after (insert k seeds hasher x (insert_all before init)).1
        (insert_answers x x (insert_all before init)).2

  -- All hash functions see the lowest `k` digits of the hash only: two items whose hashes agree modulo
  -- the size have the same positions, and the filter cannot tell one from the other.
  pub same_positions :
      (x y : T) (f : Filter)
      → hasher x % 2 ^ k ≡ hasher y % 2 ^ k
      → (positions x ≡ positions y) × (contains k seeds hasher x f ≡ contains k seeds hasher y f)
  unfolding contains
  same_positions x y f h =
      let e = same_hashes k (hasher x) (hasher y) h seeds in (e, ap (λ hs. all_set hs f.bits) e)

  -- After `clear`, the filter answers false for every item, and `insert` true.
  pub clear_answers :
      (seed : ℕ) (rest : List ℕ) (x : T) (f : Filter)
      → seeds ≡ seed ∷ rest
      → (contains k seeds hasher x (clear f) ≡ false)
        × ((insert k seeds hasher x (clear f)).0 ≡ true)
        × ((clear f).count ≡ 0)
  unfolding clear init
  clear_answers seed rest x f e =
      let n = absent seed rest x e in (n, (insert_answers x x (clear f)).0 ∙ ap not n, refl)
