-- ===== src/Trie/Tidy.antt =====
-- What keeps the tries of atomic_trie.hpp tidy: every node but the root stands on the way to a word,
-- since `insert` makes nodes only for its word and `erase` cleans up behind it.
use cpp_lockfree_structures.Prelude.{
  ℕ, zero, suc, ◌+◌, ◌<◌, ◌≡◌, refl, sym, ap, ◌∙◌, subst, Bool, true, false, ◌||◌, List, [], ◌∷◌,
  inl, inr, eq→==, ne→==, if◌then◌else◌, arith, Bool-cases,
}
use native.Mathlib.Decide.{ℕ_discrete}
use cpp_lockfree_structures.Trie.{
  TrieNode, null, node, Trie, init, alphabet_size, char_to_index, new_node, valid_child,
  insert_recursive, insert, contains_recursive, is_live, has_children_loop, has_children,
  cleanup_node, erase_recursive, erase,
}
use cpp_lockfree_structures.Trie.Words.{
  same_word, inserted, erased, erased_root, valid_child-is_live,
}

-- A word ends at or below the node.
unfoldable pub Useful : TrieNode → Type 0
Useful t = (v : List ℕ) × (contains_recursive v t ≡ true)

unfoldable pub Tidy : TrieNode → Type 0
Tidy null = is_live null ≡ false
Tidy (node e d ch) = (d ≡ false) × ((i : ℕ) → Tidy (ch i) × (is_live (ch i) ≡ true → Useful (ch i)))

same_word_refl : (w : List ℕ) → same_word w w ≡ true
unfolding same_word
same_word_refl [] = refl
same_word_refl (c ∷ w) = ground (arith, same_word_refl w)

contains-same_word :
    (w v : List ℕ) (t : TrieNode)
    → same_word w v ≡ true
    → contains_recursive w t ≡ contains_recursive v t
unfolding same_word contains_recursive
contains-same_word w v null e = ground arith
contains-same_word [] [] (node e d ch) s = refl
contains-same_word [] (c ∷ v) (node e d ch) s = ground arith
contains-same_word (b ∷ w) [] (node e d ch) s = ground arith
contains-same_word (b ∷ w) (c ∷ v) (node e d ch) s =
    ground (arith, contains-same_word w v (ch (char_to_index b)))

new_node-Tidy : Tidy new_node
unfolding Tidy new_node is_live
new_node-Tidy = (refl, λ i. (refl, λ l. ground arith))

valid_child-Tidy : (t : TrieNode) → Tidy t → Tidy (valid_child t)
unfolding Tidy valid_child is_live
valid_child-Tidy null h = new_node-Tidy
valid_child-Tidy (node e d ch) h = rw h.0 (refl, h.1)

insert-Tidy :
    (w : List ℕ) (t : TrieNode) → is_live t ≡ true → Tidy t → Tidy (insert_recursive w t).1
unfolding Tidy insert_recursive Useful is_live
insert-Tidy w null l h = ground arith
insert-Tidy [] (node e d ch) l h = rw h.0 (refl, h.1)
insert-Tidy (c ∷ w) (node e d ch) l h = rw h.0 (
  refl,
  λ i. elim (ℕ_discrete i (char_to_index c)) [
    | yes at ↦ rw (eq→== i (char_to_index c) at) (
      insert-Tidy w (valid_child (ch (char_to_index c)))
          (valid_child-is_live (ch (char_to_index c)))
          (valid_child-Tidy (ch (char_to_index c)) (h.1 (char_to_index c)).0),
      λ l. (
        w,
        (inserted w w (valid_child (ch (char_to_index c)))
              (valid_child-is_live (ch (char_to_index c)))).2
            ∙ rw (same_word_refl w) refl,
      ),
    )
    | no away ↦ rw (ne→== i (char_to_index c) away) (h.1 i)
  ],
)

-- A child that `has_children` has found.
some_child :
    (n i : ℕ) (ch : ℕ → TrieNode)
    → has_children_loop n i ch ≡ true
    → (j : ℕ) × (j < i + n) × (is_live (ch j) ≡ true)
unfolding has_children_loop
some_child zero i ch e = ground arith
some_child (suc n) i ch e = elim (Bool-cases (is_live (ch i))) [
  | inl l ↦ (i, omega arith, l)
  | inr l ↦ step (
      some_child n (suc i) ch
        (rw⁻¹ (ap (λ b. if b then true else has_children_loop n (suc i) ch) l) e))
]
  where
    step :
        ((j : ℕ) × (j < suc i + n) × (is_live (ch j) ≡ true))
        → (j : ℕ) × (j < i + suc n) × (is_live (ch j) ≡ true)
    step (j, below, l) = (j, omega (arith, below), l)

cleanup_node-Tidy : (t : TrieNode) → Tidy t → Tidy (cleanup_node t)
unfolding Tidy cleanup_node is_live
cleanup_node-Tidy null h = refl
cleanup_node-Tidy (node e d ch) h = elim (Bool-cases (e || has_children ch || d)) [
  | inl k ↦ rw k h
  | inr k ↦ rw k refl
]

-- A word below a child is a word below the node.
Useful-child :
    (e d : Bool) (ch : ℕ → TrieNode) (j : ℕ)
    → d ≡ false
    → j < alphabet_size
    → Useful (ch j)
    → Useful (node e d ch)
unfolding Useful contains_recursive
Useful-child e d ch j dead below (v, k) =
    (j ∷ v, rw dead (subst (λ i. contains_recursive v (ch i) ≡ true) (omega arith) k))

Useful-node :
    (e d : Bool) (ch : ℕ → TrieNode)
    → Tidy (node e d ch)
    → (e || has_children ch || d) ≡ true
    → Useful (node e d ch)
unfolding Tidy has_children Useful contains_recursive
Useful-node e d ch h k = elim (Bool-cases e) [
  | inl ends ↦ ends_here ends
  | inr goes_on ↦ below (some_child alphabet_size 0 ch (ground (arith, h.0)))
]
  where
    ends_here : e ≡ true → Useful (node e d ch)
    ends_here ends = ([], rw (h.0, ends) refl)

    below : ((j : ℕ) × (j < 0 + alphabet_size) × (is_live (ch j) ≡ true)) → Useful (node e d ch)
    below (j, under, l) = Useful-child e d ch j h.0 (omega (arith, under)) ((h.1 j).1 l)

null-Useful : (t : TrieNode) → is_live null ≡ true → Useful t
unfolding is_live Useful
null-Useful t l = ground arith

cleanup_node-Useful :
    (t : TrieNode) → Tidy t → is_live (cleanup_node t) ≡ true → Useful (cleanup_node t)
unfolding cleanup_node
cleanup_node-Useful null h l = null-Useful null l
cleanup_node-Useful (node e d ch) h l = elim (Bool-cases (e || has_children ch || d)) [
  | inl k ↦ rw k (Useful-node e d ch h k)
  | inr k ↦ null-Useful _ (rw⁻¹ (ap (λ b. is_live (if b then node e d ch else null)) k) l)
]

pub clash : false ≡ true → 1 < 0
clash e = ground arith

-- An erasure that finds nothing leaves the words below.
erase-Useful :
    (w : List ℕ) (t : TrieNode)
    → (erase_recursive w t).0 ≡ false
    → (is_live t ≡ true → Useful t)
    → is_live (erase_recursive w t).1 ≡ true
    → Useful (erase_recursive w t).1
unfolding Useful
erase-Useful w t none_found u l = kept (u (sym (erased_root w t) ∙ l))
  where
    kept : Useful t → Useful (erase_recursive w t).1
    kept (v, k) = elim (Bool-cases (same_word w v)) [
      | inl s ↦ absurd (
          omega (arith, clash (sym none_found ∙ (erased w v t).0 ∙ contains-same_word w v t s ∙ k)))
      | inr s ↦ (v, (erased w v t).1 ∙ rw s k)
    ]

erase-Tidy : (w : List ℕ) (t : TrieNode) → Tidy t → Tidy (erase_recursive w t).1
unfolding Tidy erase_recursive
erase-Tidy w null h = h
erase-Tidy [] (node e d ch) h = rw h.0 (refl, h.1)
erase-Tidy (c ∷ w) (node e d ch) h =
    elim (Bool-cases (erase_recursive w (ch (char_to_index c))).0) [
      | inl found ↦
          rw (h.0, found)
            (
              refl,
              λ i. elim (ℕ_discrete i (char_to_index c)) [
                | yes at ↦ rw (eq→== i (char_to_index c) at) (
                  cleanup_node-Tidy _
                      (erase-Tidy w (ch (char_to_index c)) (h.1 (char_to_index c)).0),
                  cleanup_node-Useful _
                      (erase-Tidy w (ch (char_to_index c)) (h.1 (char_to_index c)).0),
                )
                | no away ↦ rw (ne→== i (char_to_index c) away) (h.1 i)
              ],
            )
      | inr missed ↦
          rw (h.0, missed)
            (
              refl,
              λ i. elim (ℕ_discrete i (char_to_index c)) [
                | yes at ↦ rw (eq→== i (char_to_index c) at) (
                  erase-Tidy w (ch (char_to_index c)) (h.1 (char_to_index c)).0,
                  erase-Useful w (ch (char_to_index c)) missed (h.1 (char_to_index c)).1,
                )
                | no away ↦ rw (ne→== i (char_to_index c) away) (h.1 i)
              ],
            )
    ]

-- The tries that calls of `insert` and `erase` lead to.
pub data Built : Trie → Type 0 where
  start : Built init
  then_insert : {t : Trie} (w : List ℕ) → Built t → Built (insert w t).1
  then_erase : {t : Trie} (w : List ℕ) → Built t → Built (erase w t).1

pub Built-Tidy : {t : Trie} → Built t → Tidy t.root × (is_live t.root ≡ true)
unfolding insert erase init new_node valid_child
Built-Tidy start = (new_node-Tidy, valid_child-is_live null)
Built-Tidy (then_insert [] b) = Built-Tidy b
Built-Tidy (then_insert {t} (c ∷ w) b) =
    let ih = Built-Tidy b in
    (insert-Tidy (c ∷ w) t.root ih.1 ih.0, (inserted (c ∷ w) [] t.root ih.1).1)
Built-Tidy (then_erase [] b) = Built-Tidy b
Built-Tidy (then_erase {t} (c ∷ w) b) =
    let ih = Built-Tidy b in (erase-Tidy (c ∷ w) t.root ih.0, erased_root (c ∷ w) t.root ∙ ih.1)
