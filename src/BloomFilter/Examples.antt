-- ===== src/BloomFilter/Examples.antt =====
-- Runs of the Bloom filter, and the theorems about it at them.
use cpp_lockfree_structures.Prelude.{
  ℕ, ◌+◌, ◌≤◌, ◌≡◌, refl, true, false, not, ◌||◌, [], ◌∷◌, if◌then◌else◌, arith,
}
use cpp_lockfree_structures.BloomFilter.{
  Filter, hash_seeds, is_bit_set, init, clear, insert, contains, approximate_size, popcount,
  bits_set_loop, bits_set, capacity,
}
use cpp_lockfree_structures.BloomFilter.Members.{
  contains_bit, all_pass, positions, insert_all, insert_answers, no_false_negatives, same_positions,
  clear_answers,
}
use cpp_lockfree_structures.BloomFilter.Count.{IsCounted, insert-IsCounted}

abbrev hasher : ℕ → ℕ
hasher x = x

-- A filter of 128 bits with two of them set, by one insert.
abbrev two_bits : Filter
two_bits = record { bits = λ i. 5; count = 1 }

insert_answers_example :
    ((insert 7 hash_seeds hasher 3 two_bits).0 ≡ not (contains 7 hash_seeds hasher 3 two_bits))
    × (contains 7 hash_seeds hasher 9 (insert 7 hash_seeds hasher 3 two_bits).1
        ≡ all_pass
            (λ j. contains_bit (positions 7 hash_seeds hasher 3) j || is_bit_set (λ i. 5) j)
            (positions 7 hash_seeds hasher 9))
    × (contains 7 hash_seeds hasher 3 (insert 7 hash_seeds hasher 3 two_bits).1 ≡ true)
    × (contains 7 hash_seeds hasher 9 two_bits ≡ true
        → contains 7 hash_seeds hasher 9 (insert 7 hash_seeds hasher 3 two_bits).1 ≡ true)
insert_answers_example = insert_answers 7 hash_seeds hasher 3 9 two_bits

no_false_negatives_example :
    contains 7 hash_seeds hasher 3 (
      insert_all 7 hash_seeds hasher
        (8 ∷ [])
        (insert 7 hash_seeds hasher 3 (insert_all 7 hash_seeds hasher (5 ∷ []) init)).1)
    ≡ true
no_false_negatives_example = no_false_negatives 7 hash_seeds hasher 3 (5 ∷ []) (8 ∷ [])

same_positions_example :
    (positions 7 hash_seeds hasher 3 ≡ positions 7 hash_seeds hasher 131)
    × (contains 7 hash_seeds hasher 3 two_bits ≡ contains 7 hash_seeds hasher 131 two_bits)
same_positions_example = same_positions 7 hash_seeds hasher 3 131 two_bits refl

clear_answers_example :
    (contains 7 (9 ∷ []) hasher 3 (clear two_bits) ≡ false)
    × ((insert 7 (9 ∷ []) hasher 3 (clear two_bits)).0 ≡ true)
    × ((clear two_bits).count ≡ 0)
clear_answers_example = clear_answers 7 (9 ∷ []) hasher 9 [] 3 two_bits refl

two_bits-IsCounted : IsCounted 7 two_bits
unfolding IsCounted approximate_size bits_set bits_set_loop popcount
two_bits-IsCounted = omega arith

insert-IsCounted_example :
    IsCounted 7 (insert 7 hash_seeds hasher 3 two_bits).1
    × (approximate_size (insert 7 hash_seeds hasher 3 two_bits).1
        ≡ approximate_size two_bits + (if (insert 7 hash_seeds hasher 3 two_bits).0 then 1 else 0))
    × (bits_set 7 two_bits ≤ bits_set 7 (insert 7 hash_seeds hasher 3 two_bits).1)
    × (bits_set 7 (insert 7 hash_seeds hasher 3 two_bits).1 ≤ capacity 7)
insert-IsCounted_example =
    insert-IsCounted 7 hash_seeds hasher 2 3 two_bits refl (omega arith) two_bits-IsCounted
