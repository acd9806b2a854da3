-- ===== src/Trie/Examples.antt =====
-- Runs of the trie, and the theorems about it at them.
use cpp_lockfree_structures.Prelude.{
  ◌↔◌, ◌++◌, ℕ, suc, ◌<◌, ◌≤◌, some, arith, ◌≡◌, refl, true, false, not, ◌&&◌, ◌||◌, is_nil, length,
  List, [], ◌∷◌, if◌then◌else◌, add64, sub64,
}
use cpp_lockfree_structures.Trie.{
  Trie, init, new_node, insert, insert_recursive, valid_child, contains, contains_recursive, erase,
  is_live, collect_words, collect_children,
}
use cpp_lockfree_structures.Trie.Words.{
  same_word, insert_adds_word, erase_removes_word, words_refined,
}
use cpp_lockfree_structures.Trie.Tidy.{start, then_insert, then_erase}
use cpp_lockfree_structures.Trie.Prefix.{starts_with_word}
use cpp_lockfree_structures.Trie.{starts_with, get_all_with_prefix, longest_prefix, longest_loop}
use cpp_lockfree_structures.Trie.Listing.{get_all_lists}
use cpp_lockfree_structures.Trie.Suffixes.{times, begins, rest_after, is_small}
use cpp_lockfree_structures.Trie.Longest.{longest_prefix_lem}
use cpp_lockfree_structures.Trie.Iterator.{collect_all_words, begin, size_max}
use cpp_lockfree_structures.Trie.Visit.{visit, Ascends, visit_words}

-- "a" is in.
abbrev only_a : Trie
only_a = (insert (97 ∷ []) init).1

root-is_live : is_live only_a.root ≡ true
unfolding is_live insert insert_recursive init new_node
root-is_live = refl

-- The wide character 353 has the index of "a".
wide_collision : contains (353 ∷ []) only_a ≡ true
unfolding contains contains_recursive insert insert_recursive valid_child init new_node
wide_collision = refl

insert_adds_word_example :
    ((insert (97 ∷ (98 ∷ [])) only_a).0 ≡ not (contains (97 ∷ (98 ∷ [])) only_a))
    × ((v : List ℕ)
        → contains v (insert (97 ∷ (98 ∷ [])) only_a).1
          ≡ (if same_word (97 ∷ (98 ∷ [])) v then true else contains v only_a))
    × ((insert (97 ∷ (98 ∷ [])) only_a).1.count
        ≡ (if contains (97 ∷ (98 ∷ [])) only_a then only_a.count else add64 only_a.count 1))
    × (is_live (insert (97 ∷ (98 ∷ [])) only_a).1.root ≡ true)
insert_adds_word_example = insert_adds_word 97 (98 ∷ []) only_a root-is_live

erase_removes_word_example :
    ((erase (97 ∷ []) only_a).0 ≡ contains (97 ∷ []) only_a)
    × ((v : List ℕ)
        → contains v (erase (97 ∷ []) only_a).1
          ≡ (if same_word (97 ∷ []) v then false else contains v only_a))
    × ((erase (97 ∷ []) only_a).1.count
        ≡ (if contains (97 ∷ []) only_a then sub64 only_a.count 1 else only_a.count))
    × (is_live (erase (97 ∷ []) only_a).1.root ≡ is_live only_a.root)
erase_removes_word_example = erase_removes_word 97 [] only_a

-- "a" and "ab" were inserted, and "a" was erased.
abbrev only_ab : Trie
only_ab = (erase (97 ∷ []) (insert (97 ∷ (98 ∷ [])) only_a).1).1

starts_with_word_example :
    (starts_with (97 ∷ []) only_ab ≡ true)
    ↔ ((v : List ℕ) × (contains (97 ∷ ([] ++ v)) only_ab ≡ true))
starts_with_word_example =
    starts_with_word only_ab 97 []
      (then_erase (97 ∷ []) (then_insert (97 ∷ (98 ∷ [])) (then_insert (97 ∷ []) start)))

-- "a" and "ab" are in.
abbrev both : Trie
both = (insert (97 ∷ (98 ∷ [])) only_a).1

get_all_lists_example : times (97 ∷ (98 ∷ [])) (get_all_with_prefix (97 ∷ []) both) ≡ (
    if begins (97 ∷ []) (97 ∷ (98 ∷ []))
      && is_small (rest_after (97 ∷ []) (97 ∷ (98 ∷ [])))
      && contains (97 ∷ (98 ∷ [])) both
    then 1
    else 0)
get_all_lists_example = get_all_lists (97 ∷ []) (97 ∷ (98 ∷ [])) both

a_is_in : contains (97 ∷ []) both ≡ true
unfolding contains contains_recursive insert insert_recursive valid_child init new_node
a_is_in = refl

none_is_in : longest_prefix (98 ∷ (97 ∷ [])) both ≡ []
unfolding longest_prefix longest_loop insert insert_recursive valid_child is_live init new_node
none_is_in = refl

longest_prefix_lem_example :
    ((c : List ℕ) × (97 ∷ (99 ∷ []) ≡ longest_prefix (97 ∷ (99 ∷ [])) both ++ c))
    × ((is_nil (longest_prefix (97 ∷ (99 ∷ [])) both)
          || contains (longest_prefix (97 ∷ (99 ∷ [])) both) both)
        ≡ true)
    × ((a b : List ℕ)
        → 97 ∷ (99 ∷ []) ≡ a ++ b
        → contains a both ≡ true
        → length a ≤ length (longest_prefix (97 ∷ (99 ∷ [])) both))
longest_prefix_lem_example = longest_prefix_lem (97 ∷ (99 ∷ [])) both

words_refined_example :
    (((insert (98 ∷ []) only_a).0 ≡ not (contains (98 ∷ []) only_a))
      × ((v : List ℕ)
          → contains v (insert (98 ∷ []) only_a).1
            ≡ (if same_word (98 ∷ []) v then true else contains v only_a))
      × ((insert (98 ∷ []) only_a).1.count
          ≡ (if contains (98 ∷ []) only_a then only_a.count else add64 only_a.count 1))
      × (is_live (insert (98 ∷ []) only_a).1.root ≡ true))
    × (((erase (98 ∷ []) only_a).0 ≡ contains (98 ∷ []) only_a)
        × ((v : List ℕ)
            → contains v (erase (98 ∷ []) only_a).1
              ≡ (if same_word (98 ∷ []) v then false else contains v only_a))
        × ((erase (98 ∷ []) only_a).1.count
            ≡ (if contains (98 ∷ []) only_a then sub64 only_a.count 1 else only_a.count))
        × (is_live (erase (98 ∷ []) only_a).1.root ≡ is_live only_a.root))
words_refined_example = words_refined 98 [] only_a root-is_live

both_words : collect_all_words both ≡ (97 ∷ []) ∷ ((97 ∷ (98 ∷ [])) ∷ [])
unfolding collect_all_words collect_words collect_children insert insert_recursive valid_child
    is_live init new_node
both_words = refl

few_words : length (collect_all_words both) < size_max
few_words = rw both_words (omega arith)

visit_words_example :
    (ws : List (List ℕ)) × (visit (suc (length (collect_all_words both))) (begin both) ≡ some ws)
    × Ascends ws
    × ((c : ℕ) (u : List ℕ)
        → times (c ∷ u) ws ≡ (if is_small (c ∷ u) && contains (c ∷ u) both then 1 else 0))
visit_words_example = visit_words both few_words
