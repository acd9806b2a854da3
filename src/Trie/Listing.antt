-- ===== src/Trie/Listing.antt =====
-- `get_all_with_prefix` and `count_with_prefix` of atomic_trie.hpp list the words that are in.
use cpp_lockfree_structures.Prelude.{
  ℕ, ◌%◌, ◌≡◌, refl, sym, ap, ◌∙◌, true, false, not, ◌&&◌, List, [], ◌∷◌, ◌++◌, is_nil, inl, inr,
  if◌then◌else◌, Bool-cases,
}
use cpp_lockfree_structures.Trie.{
  TrieNode, null, node, Trie, contains_recursive, contains, collect_words, prefix_node,
  get_all_with_prefix,
}
use cpp_lockfree_structures.Trie.Suffixes.{
  times, is_small, begins, rest_after, times-extend, rest_after-append, suffixes, collected,
  times-suffixes,
}

contains-prefix_node :
    (p u : List ℕ) (t : TrieNode)
    → contains_recursive (p ++ u) t ≡ contains_recursive u (prefix_node p t)
unfolding contains_recursive prefix_node
contains-prefix_node [] [] null = refl
contains-prefix_node [] (c ∷ u) null = refl
contains-prefix_node (c ∷ p) [] null = refl
contains-prefix_node (c ∷ p) (b ∷ u) null = refl
contains-prefix_node [] [] (node e true ch) = refl
contains-prefix_node [] (c ∷ u) (node e true ch) = refl
contains-prefix_node [] u (node e false ch) = refl
contains-prefix_node (c ∷ p) [] (node e true ch) = refl
contains-prefix_node (c ∷ p) (b ∷ u) (node e true ch) = refl
contains-prefix_node (c ∷ p) u (node e false ch) = contains-prefix_node p u (ch (c % 256))

behind_prefix :
    (c : ℕ) (p w : List ℕ) (t : Trie)
    → begins (c ∷ p) w ≡ true
    → contains w t ≡ contains_recursive (rest_after (c ∷ p) w) (prefix_node (c ∷ p) t.root)
unfolding contains
behind_prefix c p w t b =
    ap (λ v. contains v t) (sym (rest_after-append (c ∷ p) w b))
    ∙ contains-prefix_node (c ∷ p) (rest_after (c ∷ p) w) t.root

-- `get_all_with_prefix` lists a word at most once, and lists it exactly if it begins with the prefix,
-- `contains` finds it, and its characters behind the prefix are less than 256; for an empty prefix it
-- lists none.
pub get_all_lists :
    (p w : List ℕ) (t : Trie)
    → times w (get_all_with_prefix p t)
      ≡ (if not (is_nil p) && begins p w && is_small (rest_after p w) && contains w t then 1 else 0)
unfolding get_all_with_prefix
get_all_lists [] w t = refl
get_all_lists (c ∷ p) w t =
    let n = prefix_node (c ∷ p) t.root in
    ap (times w) (collected n (c ∷ p))
    ∙ times-extend (c ∷ p) w (suffixes n)
    ∙ elim (Bool-cases (begins (c ∷ p) w)) [
      | inl b ↦ rw b (
          times-suffixes (rest_after (c ∷ p) w) n
          ∙ ap (λ x. if is_small (rest_after (c ∷ p) w) && x then 1 else 0)
              (sym (behind_prefix c p w t b)))
      | inr b ↦ rw b refl
    ]

-- How often a word is among those below a node.
pub times-collect_words :
    (u : List ℕ) (t : TrieNode)
    → times u (collect_words t []) ≡ (if is_small u && contains_recursive u t then 1 else 0)
times-collect_words u t =
    ap (times u) (collected t []) ∙ times-extend [] u (suffixes t) ∙ times-suffixes u t
