-- ===== src/HashMap/Examples.antt =====
-- Runs of the hash map, and the theorems about it at them.
use cpp_lockfree_structures.Prelude.{
  ℕ, suc, ◌-◌, ◌≡◌, refl, true, false, none, some, [], ◌∷◌, ◌==◌, ==→eq, is_nil, arith,
  if◌then◌else◌, sub64,
}
use cpp_lockfree_structures.HashMap.{
  HashMap, empty, max_attempts, init, link_loop, insert, insert_move, find, find_node, contains,
  erase, begin, get_bucket_index,
}
use cpp_lockfree_structures.HashMap.Map.{Inserted, occurrences, insert_into_map}
use cpp_lockfree_structures.HashMap.Erase.{erase_from_map}
use cpp_lockfree_structures.HashMap.Unique.{IsUnique, insert-erase-IsUnique, key_inserted_twice}
use cpp_lockfree_structures.HashMap.Iterate.{visit, nodes, all_pairs, visit-begin}
use cpp_lockfree_structures.HashMap.Chain.{copies}

abbrev hash : ℕ → ℕ
hash k = k

-- Two buckets: 4 is in, and an erased 6 stands before it.
abbrev only_four : HashMap ℕ ℕ
only_four = record {
  buckets = λ i.
      if i == 0
      then record { key = 6; value = 60; deleted = true }
        ∷ (record { key = 4; value = 40; deleted = false } ∷ [])
      else [];
  count = 1;
  bucket_count = 2;
}

compatible : (k i : ℕ) → (k == i) ≡ true → hash k ≡ hash i
compatible k i e = ==→eq k i e

symmetric : (i j : ℕ) → (i == j) ≡ true → (j == i) ≡ true
symmetric i j e = ground arith

transitive : (i j k : ℕ) → (i == j) ≡ true → (j == k) ≡ true → (i == k) ≡ true
transitive i j k e e' = ground arith

alike : (j k i : ℕ) → (j == k) ≡ true → (j == i) ≡ true → (k == i) ≡ true
alike j k i e e' = ground arith

insert_into_map_example :
    Inserted ◌==◌ hash 6 61 only_four (insert ◌==◌ hash (true ∷ []) 6 61 only_four)
    × Inserted ◌==◌ hash 6 61 only_four (insert_move ◌==◌ hash [] 6 61 only_four)
insert_into_map_example =
    insert_into_map ◌==◌ hash compatible (true ∷ []) [] 6 61 only_four (omega arith) (omega arith)

erase_from_map_example :
    ((erase ◌==◌ hash 4 only_four).0 ≡ contains ◌==◌ hash 4 only_four)
    × (occurrences ◌==◌ hash 4 (erase ◌==◌ hash 4 only_four).1
        ≡ occurrences ◌==◌ hash 4 only_four - 1)
    × ((i : ℕ)
        → (4 == i) ≡ false
        → find ◌==◌ hash i (erase ◌==◌ hash 4 only_four).1 ≡ find ◌==◌ hash i only_four)
    × ((erase ◌==◌ hash 4 only_four).1.count
        ≡ (if contains ◌==◌ hash 4 only_four then sub64 1 1 else 1))
erase_from_map_example = erase_from_map ◌==◌ hash alike 4 only_four

no_pairs-IsUnique : IsUnique {V = ℕ} ◌==◌ hash (init 2)
unfolding IsUnique occurrences copies init
no_pairs-IsUnique i = omega arith

insert-erase-IsUnique_example :
    IsUnique {V = ℕ} ◌==◌ hash (insert ◌==◌ hash [] 3 30 (init 2)).1
    × IsUnique {V = ℕ} ◌==◌ hash (erase ◌==◌ hash 3 (init 2)).1
    × (contains {V = ℕ} ◌==◌ hash 3 (erase ◌==◌ hash 3 (init 2)).1 ≡ false)
insert-erase-IsUnique_example =
    insert-erase-IsUnique ◌==◌ hash compatible symmetric transitive [] 3 30 (init 2) (omega arith)
      no_pairs-IsUnique

five_is_new : find ◌==◌ hash 5 only_four ≡ none
unfolding find get_bucket_index find_node
five_is_new = refl

key_inserted_twice_example :
    (m1 : HashMap ℕ ℕ) × (m2 : HashMap ℕ ℕ) × (link_loop ◌==◌ hash max_attempts [] 5 50 only_four
      ≡ (true, m1))
    × (link_loop ◌==◌ hash max_attempts (true ∷ []) 5 51 m1 ≡ (true, m2))
    × (occurrences ◌==◌ hash 5 m2 ≡ 2)
    × (occurrences ◌==◌ hash 5 (erase ◌==◌ hash 5 m2).1 ≡ 1)
key_inserted_twice_example =
    key_inserted_twice ◌==◌ hash compatible [] (true ∷ []) 5 50 51 only_four refl (omega arith)
      (omega arith) five_is_new

visit-begin_example :
    (visit (suc (nodes 2 0 only_four)) only_four (begin only_four) ≡ some (all_pairs 2 0 only_four))
    × (empty only_four ≡ is_nil (all_pairs 2 0 only_four))
visit-begin_example = visit-begin only_four (omega arith)
