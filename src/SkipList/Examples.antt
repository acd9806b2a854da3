-- ===== src/SkipList/Examples.antt =====
-- Runs of the skip list, and the theorems about it at them.
use cpp_lockfree_structures.Prelude.{
  ℕ, ◌≡◌, refl, Bool, true, false, not, ◌&&◌, none, some, is_some, List, [], ◌∷◌, ltb, leb, arith,
  if◌then◌else◌,
}
use cpp_lockfree_structures.Levels.{Node, live}
use cpp_lockfree_structures.Levels.Order.{IsStrictWeak, AtBottom, IsSorted, Ahead}
use cpp_lockfree_structures.SkipList.{
  Entry, find, contains, find_if, insert, erase, empty, size, begin, satisfies,
}
use cpp_lockfree_structures.SkipList.Ordered.{lookup, AllAbove, IsStrict, add, remove}
use cpp_lockfree_structures.SkipList.Keys.{same}
use cpp_lockfree_structures.SkipList.Map.{Represents, find_searches, insert_adds_entry}
use cpp_lockfree_structures.SkipList.Erase.{erase_removes_entry}
use cpp_lockfree_structures.SkipList.Iterate.{visited, visit_entries}

smaller-IsStrictWeak : IsStrictWeak ltb
smaller-IsStrictWeak = record {
  asymmetric = λ x y h. ground arith;
  cotransitive = λ x y z h h'. ground arith;
}

abbrev node : ℕ → ℕ → Bool → Node (Entry ℕ ℕ)
node x level marked = record {
  item = (x, x);
  level = level;
  linked = λ i. leb i level;
  marked = marked;
}

-- 3 and 5 are in; an erased 4 is still in the chains.
abbrev three_and_five : List (Node (Entry ℕ ℕ))
three_and_five = node 3 2 false ∷ (node 4 1 true ∷ (node 5 0 false ∷ []))

abbrev entries : List (Entry ℕ ℕ)
entries = (3, 3) ∷ ((5, 5) ∷ [])

three_and_five-Represents : Represents ltb three_and_five entries
unfolding live AtBottom IsSorted Ahead IsStrict AllAbove
three_and_five-Represents = record {
  items = refl;
  bottom = ((λ u. refl), ((λ u. refl), ((λ u. refl), tt)));
  sorted = (((λ u. refl), ((λ u. refl), tt)), (((λ u. refl), tt), (tt, tt)));
  strict = ((refl, tt), (tt, tt));
}

find_searches_example :
    ((find ltb 4 three_and_five).0 ≡ lookup ltb 4 entries)
    × ((contains ltb 4 three_and_five).0 ≡ is_some (lookup ltb 4 entries))
    × ((find_if ltb 4 (λ v. true) three_and_five).0 ≡ satisfies (λ v. true) (lookup ltb 4 entries))
    × Represents ltb (find ltb 4 three_and_five).1 entries
find_searches_example =
    find_searches ltb smaller-IsStrictWeak 4 (λ v. true) three_and_five entries
      three_and_five-Represents

insert_adds_entry_example :
    ((insert ltb (true ∷ []) (λ n. true ∷ []) 4 9 three_and_five).0
      ≡ not (is_some (lookup ltb 4 entries)))
    × Represents ltb
        (insert ltb (true ∷ []) (λ n. true ∷ []) 4 9 three_and_five).1
        (add ltb 4 9 entries)
    × ((j : ℕ)
        → lookup ltb j (add ltb 4 9 entries) ≡ (
            if (insert ltb (true ∷ []) (λ n. true ∷ []) 4 9 three_and_five).0 && same ltb j 4
            then some 9
            else lookup ltb j entries))
insert_adds_entry_example =
    insert_adds_entry ltb smaller-IsStrictWeak (true ∷ []) (λ n. true ∷ []) 4 9 three_and_five
      entries (omega arith) three_and_five-Represents

erase_removes_entry_example :
    ((erase ltb 5 three_and_five).0 ≡ is_some (lookup ltb 5 entries))
    × Represents ltb (erase ltb 5 three_and_five).1 (remove ltb 5 entries)
    × ((j : ℕ)
        → lookup ltb j (remove ltb 5 entries)
          ≡ (if same ltb j 5 then none else lookup ltb j entries))
erase_removes_entry_example =
    erase_removes_entry ltb smaller-IsStrictWeak 5 three_and_five entries three_and_five-Represents

visit_entries_example :
    (visited 3 (begin three_and_five) ≡ entries)
    × (empty three_and_five ≡ false)
    × (size three_and_five ≡ 2)
visit_entries_example =
    visit_entries ltb 3 three_and_five entries three_and_five-Represents (omega arith)
