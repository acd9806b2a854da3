-- ===== src/RbTree/Examples.antt =====
-- Runs of the tree, and the theorems about it at them.
use cpp_lockfree_structures.Prelude.{
  ℕ, suc, ◌≡◌, ◌≢◌, refl, true, false, none, some, List, [], ◌∷◌, ◌⊎◌, ltb, arith,
}
use cpp_lockfree_structures.RbTree.{
  leaf, node, RbTree, red, black, init, fixup, place, insert_loop, insert, find_node, find,
  contains, erase,
}
use cpp_lockfree_structures.RbTree.Entries.{iterated_entries}
use cpp_lockfree_structures.RbTree.Search.{Ascends, lookup}
use cpp_lockfree_structures.RbTree.Iterator.{
  begin, advance, leftmost, climb, successor, is_marked, get?, next, end,
}
use cpp_lockfree_structures.RbTree.Lookup.{erased}
use cpp_lockfree_structures.RbTree.Map.{Apart, insert_as_map, erase_as_map, insert_after_erase}
use cpp_lockfree_structures.RbTree.Order.{Between, IsOrdered, insert-erase-IsOrdered}
use cpp_lockfree_structures.RbTree.Visit.{nodes, visit}

-- Keys 5 and 3.
abbrev two_keys : RbTree ℕ ℕ
two_keys = record { root = node (node leaf 3 30 red false leaf) 5 50 black false leaf; count = 2 }

insert-two_keys : (insert ltb [] 3 30 (insert ltb (true ∷ []) 5 50 init).1).1 ≡ two_keys
unfolding insert init insert_loop place fixup
insert-two_keys = refl

insert_as_map_example :
    ((insert ltb (true ∷ []) 8 80 two_keys ≡ (false, two_keys))
      × ((find ltb 8 two_keys ≢ none) ⊎ (erased ltb 8 two_keys.root ≡ true)))
    ⊎ ((t' : RbTree ℕ ℕ) × (insert ltb (true ∷ []) 8 80 two_keys ≡ (true, t'))
        × (find ltb 8 two_keys ≡ none)
        × (erased ltb 8 two_keys.root ≡ false)
        × (find ltb 8 t' ≡ some 80)
        × ((i : ℕ) → Apart ltb i 8 → find ltb i t' ≡ find ltb i two_keys)
        × (t'.count ≡ 3))
insert_as_map_example = insert_as_map ltb (true ∷ []) 8 80 two_keys (omega arith) refl

ltb_alike :
    (i j k : ℕ) → ltb k j ≡ false → ltb j k ≡ false → (ltb i j ≡ ltb i k) × (ltb j i ≡ ltb k i)
ltb_alike i j k e e' = ground arith

erase_as_map_example :
    ((erase ltb false 3 two_keys ≡ (false, two_keys)) × (contains ltb 3 two_keys ≡ false))
    ⊎ ((t' : RbTree ℕ ℕ) × (erase ltb false 3 two_keys ≡ (true, t'))
        × (contains ltb 3 two_keys ≡ true)
        × (contains ltb 3 t' ≡ false)
        × ((i : ℕ) → Apart ltb i 3 → find ltb i t' ≡ find ltb i two_keys)
        × (t'.count ≡ 1))
erase_as_map_example = erase_as_map ltb ltb_alike 3 two_keys

three_is_there : find ltb 3 two_keys ≡ some 30
unfolding find find_node
three_is_there = refl

insert_after_erase_example :
    (t' : RbTree ℕ ℕ) × (erase ltb false 3 two_keys ≡ (true, t'))
    × (contains ltb 3 t' ≡ false)
    × (insert ltb [] 3 31 t' ≡ (false, t'))
insert_after_erase_example = insert_after_erase ltb [] 3 31 30 two_keys three_is_there

two_keys-IsOrdered : IsOrdered ltb two_keys
unfolding IsOrdered Between
two_keys-IsOrdered = (tt, tt, (tt, refl, tt, tt), tt)

insert-erase-IsOrdered_example :
    IsOrdered ltb (insert ltb (true ∷ []) 4 40 two_keys).1
    × IsOrdered ltb (erase ltb false 5 two_keys).1
insert-erase-IsOrdered_example =
    insert-erase-IsOrdered ltb (true ∷ []) false 4 5 40 two_keys two_keys-IsOrdered

ltb_trans : (i j k : ℕ) → ltb i j ≡ true → ltb j k ≡ true → ltb i k ≡ true
ltb_trans i j k e e' = ground arith

-- Key 4 is erased, below 3 and 5.
abbrev three_keys : RbTree ℕ ℕ
three_keys = record {
  root = node (node leaf 3 30 red false (node leaf 4 40 red true leaf)) 5 50 black false leaf;
  count = 2;
}

erased_skipped : visit 4 3 (begin 3 three_keys) ≡ some ((3, 30) ∷ ((5, 50) ∷ []))
unfolding visit begin advance leftmost climb successor is_marked get? next end
erased_skipped = refl

iterated_entries_example :
    (es : List (ℕ × ℕ)) × (visit
        (suc (nodes two_keys.root))
        (nodes two_keys.root)
        (begin (nodes two_keys.root) two_keys)
      ≡ some es)
    × Ascends ltb none none es
    × ((k : ℕ) → find ltb k two_keys ≡ lookup ltb k es)
iterated_entries_example = iterated_entries ltb ltb_trans ltb_alike two_keys two_keys-IsOrdered
