-- ===== src/HashSet/Examples.antt =====
-- Runs of the set, and the theorems about it at them.
use cpp_lockfree_structures.Prelude.{
  ℕ, ◌≡◌, refl, true, false, none, some, [], ◌∷◌, ◌==◌, ==→eq, is_nil, not, ◌&&◌, arith,
  if◌then◌else◌, add64, sub64, update,
}
use cpp_lockfree_structures.HashMap
use cpp_lockfree_structures.HashMap.Chain.{copies}
use cpp_lockfree_structures.HashMap.Map.{occurrences}
use cpp_lockfree_structures.HashSet.{
  Set, find_node, get_bucket_index, begin, next, skip_deleted, advance_loop, advance_to_next_valid,
  at_end, nodes, is_subset_of_loop, contains, insert, insert_move, erase, empty, to_vector,
  count_if, is_subset_of, is_superset_of,
}
use cpp_lockfree_structures.HashSet.Sim.{to_map}
use cpp_lockfree_structures.HashSet.Ops.{IsUnique, set_as_map, set_refined, moved_insert_lost}
use cpp_lockfree_structures.HashSet.Iterate.{elements}
use cpp_lockfree_structures.HashSet.Subset.{number_of, all_in, loops_over_elements, subset_has_all}

abbrev hash : ℕ → ℕ
hash x = x

-- Two buckets: 4 is in, and an erased 6 stands before it.
abbrev only_four : Set ℕ
only_four = record {
  buckets = λ i.
      if i == 0
      then record { item = 6; deleted = true } ∷ (record { item = 4; deleted = false } ∷ [])
      else [];
  count = 1;
  bucket_count = 2;
}

compatible : (x y : ℕ) → (x == y) ≡ true → hash x ≡ hash y
compatible x y e = ==→eq x y e

symmetric : (x y : ℕ) → (x == y) ≡ true → (y == x) ≡ true
symmetric x y e = ground arith

transitive : (x y z : ℕ) → (x == y) ≡ true → (y == z) ≡ true → (x == z) ≡ true
transitive x y z e e' = ground arith

set_as_map_example :
    (contains ◌==◌ hash 6 only_four ≡ HashMap.contains ◌==◌ hash 6 (to_map only_four))
    × ((let r = insert ◌==◌ hash (true ∷ []) 6 only_four in (r.0, to_map r.1))
        ≡ HashMap.insert ◌==◌ hash (true ∷ []) 6 tt (to_map only_four))
    × ((let r = erase ◌==◌ hash 6 only_four in (r.0, to_map r.1))
        ≡ HashMap.erase ◌==◌ hash 6 (to_map only_four))
set_as_map_example = set_as_map ◌==◌ hash (true ∷ []) 6 only_four

only_four-IsUnique : IsUnique ◌==◌ hash only_four
unfolding IsUnique HashMap.Unique.IsUnique occurrences copies
only_four-IsUnique i = ground arith

set_refined_example :
    (((insert ◌==◌ hash (true ∷ []) 6 only_four).0 ≡ not (contains ◌==◌ hash 6 only_four))
      × ((y : ℕ)
          → contains ◌==◌ hash y (insert ◌==◌ hash (true ∷ []) 6 only_four).1 ≡ (
              if not (contains ◌==◌ hash 6 only_four) && (6 == y)
              then true
              else contains ◌==◌ hash y only_four))
      × ((insert ◌==◌ hash (true ∷ []) 6 only_four).1.count
          ≡ (if contains ◌==◌ hash 6 only_four then 1 else add64 1 1))
      × IsUnique ◌==◌ hash (insert ◌==◌ hash (true ∷ []) 6 only_four).1)
    × (((erase ◌==◌ hash 6 only_four).0 ≡ contains ◌==◌ hash 6 only_four)
        × (contains ◌==◌ hash 6 (erase ◌==◌ hash 6 only_four).1 ≡ false)
        × ((y : ℕ)
            → (6 == y) ≡ false
            → contains ◌==◌ hash y (erase ◌==◌ hash 6 only_four).1 ≡ contains ◌==◌ hash y only_four)
        × ((erase ◌==◌ hash 6 only_four).1.count
            ≡ (if contains ◌==◌ hash 6 only_four then sub64 1 1 else 1))
        × IsUnique ◌==◌ hash (erase ◌==◌ hash 6 only_four).1)
set_refined_example =
    set_refined ◌==◌ hash compatible symmetric transitive (true ∷ []) 6 only_four (omega arith)
      only_four-IsUnique

absent : (x : ℕ) → (4 == x) ≡ false → find_node ◌==◌ x (only_four.buckets 0) ≡ none
unfolding find_node
absent x d = rw d refl

moved_insert_lost_example :
    ((insert_move ◌==◌ hash (λ x. 0) (true ∷ (false ∷ [])) 8 only_four).0 ≡ true)
    × ((insert_move ◌==◌ hash (λ x. 0) (true ∷ (false ∷ [])) 8 only_four).1.buckets
        ≡ update only_four.buckets 0 ((record { item = 0; deleted = false }) ∷ only_four.buckets 0))
    × ((insert_move ◌==◌ hash (λ x. 0) (true ∷ (false ∷ [])) 8 only_four).1.count ≡ add64 1 1)
    × (contains ◌==◌ hash 8 (insert_move ◌==◌ hash (λ x. 0) (true ∷ (false ∷ [])) 8 only_four).1
        ≡ false)
moved_insert_lost_example =
    moved_insert_lost ◌==◌ hash (λ x. 0) [] 8 only_four (absent 8 refl) (absent 0 refl) refl

loops_over_elements_example :
    (to_vector only_four ≡ some (elements 2 0 only_four))
    × (count_if (λ x. x == 4) only_four ≡ some (number_of (λ x. x == 4) (elements 2 0 only_four)))
    × (empty only_four ≡ is_nil (elements 2 0 only_four))
    × (is_subset_of ◌==◌ hash only_four only_four
        ≡ some (all_in (λ x. contains ◌==◌ hash x only_four) (elements 2 0 only_four)))
loops_over_elements_example =
    loops_over_elements ◌==◌ hash (λ x. x == 4) only_four only_four (omega arith)

subset_of_itself : is_subset_of ◌==◌ hash only_four only_four ≡ some true
unfolding is_subset_of is_subset_of_loop begin advance_to_next_valid advance_loop skip_deleted next
    at_end nodes contains get_bucket_index find_node
subset_of_itself = refl

four_in : contains ◌==◌ hash 4 only_four ≡ true
unfolding contains get_bucket_index find_node
four_in = refl

subset_has_all_example :
    (contains ◌==◌ hash 4 only_four ≡ true)
    × (is_superset_of ◌==◌ hash only_four only_four ≡ some true)
subset_has_all_example =
    subset_has_all ◌==◌ hash compatible transitive 4 only_four only_four (omega arith)
      subset_of_itself four_in
