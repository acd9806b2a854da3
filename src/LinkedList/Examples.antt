-- ===== src/LinkedList/Examples.antt =====
-- Runs of the linked list, and the theorems about it at them.
use cpp_lockfree_structures.Prelude.{
  ℕ, ◌≡◌, true, false, [], ◌∷◌, ◌==◌, is_nil, if◌then◌else◌, sub64,
}
use cpp_lockfree_structures.LinkedList.{LinkedList, remove, find, empty, begin}
use cpp_lockfree_structures.LinkedList.Search.{live, member, remove_first}
use cpp_lockfree_structures.LinkedList.Refine.{remove_refines, visit, list_observers}

-- The items 7 and 9, with an erased 5 between them.
abbrev seven_nine : LinkedList ℕ
seven_nine = record {
  head =
      record { data_ = 7; marked = false }
      ∷ (record { data_ = 5; marked = true } ∷ (record { data_ = 9; marked = false } ∷ []));
  count = 2;
}

remove_refines_example :
    ((remove ◌==◌ [] 9 seven_nine).0 ≡ member ◌==◌ 9 (live seven_nine.head))
    × (live (remove ◌==◌ [] 9 seven_nine).1.head ≡ remove_first ◌==◌ 9 (live seven_nine.head))
    × ((remove ◌==◌ [] 9 seven_nine).1.count
        ≡ (if member ◌==◌ 9 (live seven_nine.head) then sub64 2 1 else 2))
remove_refines_example = remove_refines ◌==◌ [] 9 seven_nine

list_observers_example :
    (find ◌==◌ 5 seven_nine ≡ member ◌==◌ 5 (live seven_nine.head))
    × (empty seven_nine ≡ is_nil (live seven_nine.head))
    × (visit 3 (begin seven_nine) ≡ live seven_nine.head)
list_observers_example = list_observers ◌==◌ 5 seven_nine
