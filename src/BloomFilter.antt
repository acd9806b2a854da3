-- ===== src/BloomFilter.antt =====
-- include/lockfree/atomic_bloomfilter.hpp: `AtomicBloomFilter<T, Size, NumHashFunctions>`, each
-- operation run without interference. `Size` is `2 ^ k`, `hasher` is `std::hash<T>`, and `seeds` are the
-- first `NumHashFunctions` of `hash_seeds_`.
pub mod Members
pub mod Count
mod Examples
use cpp_lockfree_structures.Prelude.{
  ℕ, zero, suc, ◌+◌, ◌-◌, ◌/◌, ◌%◌, ◌^◌, Bool, true, false, not, ◌&&◌, List, [], ◌∷◌, map, update,
  add64, bit_and, ◌==◌, if◌then◌else◌,
}
use Prim.Native.Nat.{bit_or, bit_xor}

-- `bits_`, as a function from word indices to words, and `approximate_count_`.
pub record Filter : Type 0 where
  pub bits : ℕ → ℕ
  pub count : ℕ

abbrev pub bits_per_word : ℕ
bits_per_word = 64

abbrev pub word_count : ℕ → ℕ
word_count k = 2 ^ k / bits_per_word

abbrev pub hash_seeds : List ℕ
hash_seeds =
    0x9e3779b9
    ∷ (0x85ebca6b
        ∷ (0xc2b2ae35
            ∷ (0x27d4eb2f ∷ (0x165667b1 ∷ (0xd3a2646c ∷ (0xfd7046c5 ∷ (0xb55a4f09 ∷ [])))))))

-- `get_hash_values`, given the hash of the item.
unfoldable pub get_hash_values : ℕ → List ℕ → ℕ → List ℕ
get_hash_values k seeds base_hash = map (λ seed. bit_and (bit_xor base_hash seed) (2 ^ k - 1)) seeds

-- Whether the bit was set before, and the words after `fetch_or`.
unfoldable pub set_bit : (ℕ → ℕ) → ℕ → Bool × (ℕ → ℕ)
set_bit bits bit_index =
    let word_index = bit_index / bits_per_word in
    let bit_mask = 2 ^ (bit_index % bits_per_word) in
    let old_value = bits word_index in
    (not (bit_and old_value bit_mask == 0), update bits word_index (bit_or old_value bit_mask))

unfoldable pub is_bit_set : (ℕ → ℕ) → ℕ → Bool
is_bit_set bits bit_index =
    not (bit_and (bits (bit_index / bits_per_word)) (2 ^ (bit_index % bits_per_word)) == 0)

-- The loop of `insert`: `was_already_present`, and the words.
unfoldable pub set_bits : List ℕ → Bool → (ℕ → ℕ) → Bool × (ℕ → ℕ)
set_bits [] present bits = (present, bits)
set_bits (h ∷ hs) present bits =
    let s = set_bit bits h in set_bits hs (if s.0 then present else false) s.1

-- The loop of `contains`.
unfoldable pub all_set : List ℕ → (ℕ → ℕ) → Bool
all_set [] bits = true
all_set (h ∷ hs) bits = let later = all_set hs bits in if is_bit_set bits h then later else false

-- `clear` writes 0 to every word.
unfoldable pub clear : Filter → Filter
clear f = record { bits = λ i. 0; count = 0 }

unfoldable pub init : Filter
init = record { bits = λ i. 0; count = 0 }

module _ {ℓ} {T : Type ℓ} (k : ℕ) (seeds : List ℕ) (hasher : T → ℕ) where
  unfoldable pub insert : T → Filter → Bool × Filter
  insert item f =
      let s = set_bits (get_hash_values k seeds (hasher item)) true f.bits in
      (not s.0, record { bits = s.1; count = if s.0 then f.count else add64 f.count 1 })

  -- `contains`, and `might_contain`.
  unfoldable pub contains : T → Filter → Bool
  contains item f = all_set (get_hash_values k seeds (hasher item)) f.bits

unfoldable pub approximate_size : Filter → ℕ
approximate_size f = f.count

-- `__builtin_popcountll`, digit by digit.
unfoldable pub popcount : ℕ → ℕ → ℕ
popcount zero value = 0
popcount (suc n) value = value % 2 + popcount n (value / 2)

-- The loop of `bits_set`, over the first `n` words.
unfoldable pub bits_set_loop : ℕ → (ℕ → ℕ) → ℕ
bits_set_loop zero bits = 0
bits_set_loop (suc n) bits = bits_set_loop n bits + popcount bits_per_word (bits n)

unfoldable pub bits_set : ℕ → Filter → ℕ
bits_set k f = bits_set_loop (word_count k) f.bits

unfoldable pub empty : ℕ → Filter → Bool
empty k f = bits_set k f == 0

unfoldable pub capacity : ℕ → ℕ
capacity k = 2 ^ k
