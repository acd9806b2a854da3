-- ===== src/Trie/Iterator.antt =====
-- The iterator of include/lockfree/atomic_trie.hpp: it takes the words of the trie when it is built, sorts
-- them, and counts through them; `SIZE_MAX` is the index of the end.
use cpp_lockfree_structures.Prelude.{
  ℕ, zero, suc, ◌-◌, ◌^◌, Bool, true, false, Option, none, some, List, [], ◌∷◌, is_nil, length,
  add64, ltb, leb, ◌==◌, if◌then◌else◌,
}
use cpp_lockfree_structures.Trie.{Trie, collect_words}

-- `words_` and `current_index_`.
pub record Iterator : Type 0 where
  pub words : List (List ℕ)
  pub current_index : ℕ

-- `SIZE_MAX`.
abbrev pub size_max : ℕ
size_max = 2 ^ 64 - 1

-- `operator<` on strings, negated and turned around: not greater.
abbrev pub leb_word : List ℕ → List ℕ → Bool
leb_word [] v = true
leb_word (c ∷ u) [] = false
leb_word (c ∷ u) (d ∷ v) =
    let later = leb_word u v in if ltb c d then true else if ltb d c then false else later

abbrev pub insert_word : List ℕ → List (List ℕ) → List (List ℕ)
insert_word w [] = w ∷ []
insert_word w (v ∷ l) = let later = insert_word w l in if leb_word w v then w ∷ v ∷ l else v ∷ later

-- `std::sort`.
abbrev pub sort : List (List ℕ) → List (List ℕ)
sort [] = []
sort (w ∷ l) = insert_word w (sort l)

-- `collect_all_words`.
unfoldable pub collect_all_words : Trie → List (List ℕ)
collect_all_words t = sort (collect_words t.root [])

-- `begin`, with the iterator's constructor.
unfoldable pub begin : Trie → Iterator
begin t =
    let words = collect_all_words t in
    record { words = words; current_index = if is_nil words then size_max else 0 }

-- `operator++`.
unfoldable pub next : Iterator → Iterator
next it =
    let i = add64 it.current_index 1 in
    if ltb it.current_index (length it.words)
    then record {
      words = it.words;
      current_index = if leb (length it.words) i then size_max else i;
    }
    else it

abbrev pub get_elem? : List (List ℕ) → ℕ → Option (List ℕ)
get_elem? [] i = none
get_elem? (w ∷ l) zero = some w
get_elem? (w ∷ l) (suc i) = get_elem? l i

-- `operator*`: `none` where it is out of range.
unfoldable pub get? : Iterator → Option (List ℕ)
get? it = get_elem? it.words it.current_index

-- `operator==` with `end` of the same trie.
unfoldable pub at_end : Iterator → Bool
at_end it = it.current_index == size_max
