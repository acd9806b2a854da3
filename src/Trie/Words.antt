-- ===== src/Trie/Words.antt =====
-- The operations of atomic_trie.hpp as those of a set of words.
use cpp_lockfree_structures.Prelude.{
  ℕ, zero, suc, ◌+◌, ◌<◌, ◌≤◌, ◌≡◌, refl, Bool, true, false, not, List, [], ◌∷◌, ◌==◌,
  if◌then◌else◌, arith, add64, sub64,
}
use cpp_lockfree_structures.Trie.{
  TrieNode, null, node, Trie, alphabet_size, char_to_index, new_node, valid_child, insert_recursive,
  insert, contains_recursive, contains, is_live, has_children_loop, has_children, cleanup_node,
  erase_recursive, erase,
}

-- The words take the same way through the trie.
unfoldable pub same_word : List ℕ → List ℕ → Bool
same_word [] [] = true
same_word [] (c ∷ v) = false
same_word (b ∷ w) [] = false
same_word (b ∷ w) (c ∷ v) =
    let rest = same_word w v in if char_to_index b == char_to_index c then rest else false

contains-valid_child :
    (v : List ℕ) (t : TrieNode) → contains_recursive v (valid_child t) ≡ contains_recursive v t
unfolding contains_recursive valid_child new_node
contains-valid_child [] null = refl
contains-valid_child (c ∷ v) null = refl
contains-valid_child [] (node e d ch) = ground arith
contains-valid_child (c ∷ v) (node e d ch) = ground arith

pub valid_child-is_live : (t : TrieNode) → is_live (valid_child t) ≡ true
unfolding valid_child is_live new_node
valid_child-is_live null = refl
valid_child-is_live (node e d ch) = ground arith

pub inserted :
    (w v : List ℕ) (t : TrieNode)
    → is_live t ≡ true
    → ((insert_recursive w t).0 ≡ not (contains_recursive w t))
      × (is_live (insert_recursive w t).1 ≡ true)
      × (contains_recursive v (insert_recursive w t).1
          ≡ (if same_word w v then true else contains_recursive v t))
unfolding insert_recursive contains_recursive is_live same_word
inserted w v null l = ground arith
inserted [] [] (node e d ch) l = ground arith
inserted [] (c ∷ v) (node e d ch) l = ground arith
inserted (b ∷ w) [] (node e d ch) l = ground (
  arith,
  inserted w [] (valid_child (ch (char_to_index b))) (valid_child-is_live (ch (char_to_index b))),
  contains-valid_child w (ch (char_to_index b)),
)
inserted (b ∷ w) (c ∷ v) (node e d ch) l = ground (
  arith,
  inserted w v (valid_child (ch (char_to_index b))) (valid_child-is_live (ch (char_to_index b))),
  contains-valid_child w (ch (char_to_index b)),
  contains-valid_child v (ch (char_to_index b)),
  contains-valid_child v (ch (char_to_index c)),
)

words_after_insert :
    (c : ℕ) (w v : List ℕ) (t : Trie)
    → is_live t.root ≡ true
    → contains v (insert (c ∷ w) t).1 ≡ (if same_word (c ∷ w) v then true else contains v t)
unfolding insert contains same_word
words_after_insert c w [] t l = refl
words_after_insert c w (d ∷ v) t l = (inserted (c ∷ w) (d ∷ v) t.root l).2

-- If the root is there and not deleted, then `insert` of a word that is not empty answers whether
-- the word was not in; exactly that word is in besides those that were, the count is one more if it
-- was new, and the root stays. Words are the same if their characters are the same modulo 256.
pub insert_adds_word :
    (c : ℕ) (w : List ℕ) (t : Trie)
    → is_live t.root ≡ true
    → ((insert (c ∷ w) t).0 ≡ not (contains (c ∷ w) t))
      × ((v : List ℕ)
          → contains v (insert (c ∷ w) t).1 ≡ (if same_word (c ∷ w) v then true else contains v t))
      × ((insert (c ∷ w) t).1.count ≡ (if contains (c ∷ w) t then t.count else add64 t.count 1))
      × (is_live (insert (c ∷ w) t).1.root ≡ true)
unfolding insert contains
insert_adds_word c w t l = (
  (inserted (c ∷ w) [] t.root l).0,
  (λ v. words_after_insert c w v t l),
  ground (arith, (inserted (c ∷ w) [] t.root l).0),
  (inserted (c ∷ w) [] t.root l).1,
)

no_children :
    (n i : ℕ) (ch : ℕ → TrieNode) (j : ℕ)
    → has_children_loop n i ch ≡ false
    → i ≤ j
    → j < i + n
    → is_live (ch j) ≡ false
unfolding has_children_loop
no_children zero i ch j e h g = absurd (omega arith)
no_children (suc n) i ch j e h g = ground (arith, no_children n (suc i) ch j)

contains_in_dead : (v : List ℕ) (t : TrieNode) → is_live t ≡ false → contains_recursive v t ≡ false
unfolding is_live contains_recursive
contains_in_dead [] null l = refl
contains_in_dead (c ∷ v) null l = refl
contains_in_dead [] (node e d ch) l = ground arith
contains_in_dead (c ∷ v) (node e d ch) l = ground arith

contains-cleanup_node :
    (v : List ℕ) (t : TrieNode) → contains_recursive v (cleanup_node t) ≡ contains_recursive v t
unfolding contains_recursive cleanup_node has_children
contains-cleanup_node [] null = refl
contains-cleanup_node (c ∷ v) null = refl
contains-cleanup_node [] (node e d ch) = ground arith
contains-cleanup_node (c ∷ v) (node e d ch) = ground (
  arith,
  no_children alphabet_size 0 ch (char_to_index c),
  contains_in_dead v (ch (char_to_index c)),
)

pub erased :
    (w v : List ℕ) (t : TrieNode)
    → ((erase_recursive w t).0 ≡ contains_recursive w t)
      × (contains_recursive v (erase_recursive w t).1
          ≡ (if same_word w v then false else contains_recursive v t))
unfolding erase_recursive contains_recursive same_word
erased w v null = ground arith
erased [] [] (node e d ch) = ground arith
erased [] (c ∷ v) (node e d ch) = ground arith
erased (b ∷ w) [] (node e d ch) = ground (arith, erased w [] (ch (char_to_index b)))
erased (b ∷ w) (c ∷ v) (node e d ch) = ground (
  arith,
  erased w v (ch (char_to_index b)),
  contains-cleanup_node v (erase_recursive w (ch (char_to_index b))).1,
)

words_after_erase :
    (c : ℕ) (w v : List ℕ) (t : Trie)
    → contains v (erase (c ∷ w) t).1 ≡ (if same_word (c ∷ w) v then false else contains v t)
unfolding erase contains same_word
words_after_erase c w [] t = refl
words_after_erase c w (d ∷ v) t = (erased (c ∷ w) (d ∷ v) t.root).1

pub erased_root : (w : List ℕ) (t : TrieNode) → is_live (erase_recursive w t).1 ≡ is_live t
unfolding erase_recursive is_live
erased_root w null = ground arith
erased_root [] (node e d ch) = ground arith
erased_root (c ∷ w) (node e d ch) = ground arith

-- `erase` of a word that is not empty answers whether the word was in; then exactly that word is no
-- longer in, whatever nodes were cleaned up, and the count is one less; the root stays. Words are
-- the same if their characters are the same modulo 256.
pub erase_removes_word :
    (c : ℕ) (w : List ℕ) (t : Trie)
    → ((erase (c ∷ w) t).0 ≡ contains (c ∷ w) t)
      × ((v : List ℕ)
          → contains v (erase (c ∷ w) t).1 ≡ (if same_word (c ∷ w) v then false else contains v t))
      × ((erase (c ∷ w) t).1.count ≡ (if contains (c ∷ w) t then sub64 t.count 1 else t.count))
      × (is_live (erase (c ∷ w) t).1.root ≡ is_live t.root)
unfolding erase contains
erase_removes_word c w t = (
  (erased (c ∷ w) [] t.root).0,
  (λ v. words_after_erase c w v t),
  ground (arith, (erased (c ∷ w) [] t.root).0),
  erased_root (c ∷ w) t.root,
)

-- If the root is there and not deleted: `insert` of a word that is not empty answers whether the word
-- was not in, and exactly that word is in besides those that were; `erase` answers whether it was in,
-- and exactly that word is no longer in, whatever nodes were cleaned up. The count goes with the
-- answers, and the root stays. Words are the same if their characters are the same modulo 256.
pub words_refined :
    (c : ℕ) (w : List ℕ) (t : Trie)
    → is_live t.root ≡ true
    → (((insert (c ∷ w) t).0 ≡ not (contains (c ∷ w) t))
        × ((v : List ℕ)
            → contains v (insert (c ∷ w) t).1
              ≡ (if same_word (c ∷ w) v then true else contains v t))
        × ((insert (c ∷ w) t).1.count ≡ (if contains (c ∷ w) t then t.count else add64 t.count 1))
        × (is_live (insert (c ∷ w) t).1.root ≡ true))
      × (((erase (c ∷ w) t).0 ≡ contains (c ∷ w) t)
          × ((v : List ℕ)
              → contains v (erase (c ∷ w) t).1
                ≡ (if same_word (c ∷ w) v then false else contains v t))
          × ((erase (c ∷ w) t).1.count ≡ (if contains (c ∷ w) t then sub64 t.count 1 else t.count))
          × (is_live (erase (c ∷ w) t).1.root ≡ is_live t.root))
words_refined c w t l = (insert_adds_word c w t l, erase_removes_word c w t)
