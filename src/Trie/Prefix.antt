-- ===== src/Trie/Prefix.antt =====
-- `starts_with` of atomic_trie.hpp, on the tries that `insert` and `erase` make.
use cpp_lockfree_structures.Prelude.{
  ℕ, ◌≡◌, ◌↔◌, refl, ap, true, false, List, [], ◌∷◌, ◌++◌, is_nil, if◌then◌else◌, arith,
}
use cpp_lockfree_structures.Trie.{
  TrieNode, null, node, Trie, char_to_index, contains_recursive, contains, is_live,
  starts_with_loop, starts_with,
}
use cpp_lockfree_structures.Trie.Tidy.{Useful, Tidy, clash, Built, Built-Tidy}

starts_with-forward :
    (p : List ℕ) (t : TrieNode)
    → Tidy t
    → (is_nil p ≡ true → is_live t ≡ true → Useful t)
    → starts_with_loop p t ≡ true
    → (v : List ℕ) × (contains_recursive (p ++ v) t ≡ true)
unfolding Tidy starts_with_loop contains_recursive Useful is_live
starts_with-forward p null h u s = ground arith
starts_with-forward [] (node e d ch) h u s = u refl s
starts_with-forward (c ∷ p) (node e d ch) h u s = step (
    starts_with-forward p (ch (char_to_index c)) (h.1 (char_to_index c)).0
      (λ n. (h.1 (char_to_index c)).1)
      (rw⁻¹ (ap (λ b. if b then false else starts_with_loop p (ch (char_to_index c))) h.0) s))
  where
    step :
        ((v : List ℕ) × (contains_recursive (p ++ v) (ch (char_to_index c)) ≡ true))
        → (v : List ℕ) × (contains_recursive (c ∷ (p ++ v)) (node e d ch) ≡ true)
    step (v, k) = (v, rw h.0 k)

starts_with-backward :
    (p v : List ℕ) (t : TrieNode)
    → contains_recursive (p ++ v) t ≡ true
    → starts_with_loop p t ≡ true
unfolding starts_with_loop contains_recursive
starts_with-backward p v null k = ground arith
starts_with-backward [] [] (node e d ch) k = ground arith
starts_with-backward [] (c ∷ v) (node e d ch) k = ground arith
starts_with-backward (c ∷ p) v (node e d ch) k =
    ground (arith, starts_with-backward p v (ch (char_to_index c)))

-- In a trie that calls of `insert` and `erase` lead to, `starts_with` of a prefix that is not empty
-- answers true exactly if a word that is in begins with the prefix.
pub starts_with_word :
    (t : Trie) (c : ℕ) (p : List ℕ)
    → Built t
    → (starts_with (c ∷ p) t ≡ true) ↔ ((v : List ℕ) × (contains (c ∷ (p ++ v)) t ≡ true))
unfolding starts_with contains
starts_with_word t c p b = (
  starts_with-forward (c ∷ p) t.root (Built-Tidy b).0 (λ n. absurd (omega (arith, clash n))),
  λ found. starts_with-backward (c ∷ p) found.0 t.root found.1,
)
