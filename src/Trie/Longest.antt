-- ===== src/Trie/Longest.antt =====
-- `longest_prefix` of atomic_trie.hpp.
use cpp_lockfree_structures.Prelude.{
  ℕ, suc, ◌≤◌, ◌<◌, ◌≡◌, refl, sym, ap, ◌∙◌, subst, Bool, true, false, ◌||◌, List, [], ◌∷◌, ◌++◌,
  append_assoc, append-nil, is_nil, length, length-append, inl, inr, if◌then◌else◌, ltb, ltb→lt,
  ltb→le, arith, Bool-cases,
}
use cpp_lockfree_structures.Trie.{
  TrieNode, null, node, Trie, char_to_index, contains_recursive, contains, longest_loop,
  longest_prefix,
}

first_or : ℕ → List ℕ → ℕ
first_or x [] = x
first_or x (y ∷ l) = y

others : List ℕ → List ℕ
others [] = []
others (y ∷ l) = l

-- Of two beginnings of a word the longer one begins with the other.
longer_begins :
    (done a w b : List ℕ)
    → done ++ w ≡ a ++ b
    → length done ≤ length a
    → (u : List ℕ) × (a ≡ done ++ u)
unfolding first_or others
longer_begins [] a w b e h = (a, refl)
longer_begins (c ∷ p) [] w b e h = absurd (omega arith)
longer_begins (c ∷ p) (x ∷ a) w b e h =
    let ih = longer_begins p a w b (ap others e) (omega arith) in
    (ih.0, ap (λ l. x ∷ l) ih.1 ∙ ap (λ y. y ∷ (p ++ ih.0)) (sym (ap (first_or 0) e)))

nothing_more : (u done a : List ℕ) → a ≡ done ++ u → length a ≤ length done → u ≡ []
nothing_more [] done a e h = refl
nothing_more (c ∷ u) done a e h = absurd (omega (arith, h, ap length e, length-append done (c ∷ u)))

module _ (whole : TrieNode) (word : List ℕ) where
  -- `r` is the longest beginning of the word, of less than `n` characters, that is in, or empty.
  record IsLongest (n : ℕ) (r : List ℕ) : Type 0 where
    begun : (b : List ℕ) × (word ≡ r ++ b)
    is_word : is_nil r ≡ false → contains_recursive r whole ≡ true
    longest :
        (a b : List ℕ)
        → word ≡ a ++ b
        → contains_recursive a whole ≡ true
        → length a < n
        → length a ≤ length r

  -- The loop stands at `t` behind `done`, with `w` left.
  record Stands (done w : List ℕ) (t : TrieNode) : Type 0 where
    split : word ≡ done ++ w
    reached : (u : List ℕ) → contains_recursive (done ++ u) whole ≡ contains_recursive u t

  -- No beginning is in that goes on behind a node without words.
  IsLongest-stop :
      (done w r : List ℕ) (t : TrieNode)
      → Stands done w t
      → ((u : List ℕ) → contains_recursive u t ≡ false)
      → IsLongest (length done) r
      → IsLongest (suc (length word)) r
  IsLongest-stop done w r t s none l = record {
    begun = l.begun;
    is_word = l.is_word;
    longest = λ a b e h g. elim (Bool-cases (ltb (length a) (length done))) [
      | inl q ↦ l.longest a b e h (ltb→lt (length a) (length done) q)
      | inr q ↦
          let u = longer_begins done a w b (sym s.split ∙ e) (ltb→le (length a) (length done) q) in
          absurd
            (cc (sym (ap (λ x. contains_recursive x whole) u.1 ∙ s.reached u.0 ∙ none u.0) ∙ h))
    ];
  }

  -- One character further: `done` itself is the longest if it is a word.
  IsLongest-step :
      (done w r : List ℕ) (e : Bool) (ch : ℕ → TrieNode)
      → Stands done w (node e false ch)
      → IsLongest (length done) r
      → IsLongest (suc (length done)) (if e then done else r)
  unfolding contains_recursive
  IsLongest-step done w r true ch s l = record {
    begun = (w, s.split);
    is_word = λ n. ap (λ x. contains_recursive x whole) (sym (append-nil done)) ∙ s.reached [];
    longest = λ a b e h g. omega (arith, g);
  }
  IsLongest-step done w r false ch s l = record {
    begun = l.begun;
    is_word = l.is_word;
    longest = λ a b e h g. elim (Bool-cases (ltb (length a) (length done))) [
      | inl q ↦ l.longest a b e h (ltb→lt (length a) (length done) q)
      | inr q ↦
          let u = longer_begins done a w b (sym s.split ∙ e) (ltb→le (length a) (length done) q) in
          let n = nothing_more u.0 done a u.1 (omega (arith, g)) in
          absurd (
            cc (
              sym (
                ap (λ x. contains_recursive x whole) u.1
                ∙ s.reached u.0
                ∙ ap (λ v. contains_recursive v (node false false ch)) n)
              ∙ h))
    ];
  }

  Stands-step :
      (c : ℕ) (done w : List ℕ) (e : Bool) (ch : ℕ → TrieNode)
      → Stands done (c ∷ w) (node e false ch)
      → Stands (done ++ c ∷ []) w (ch (char_to_index c))
  unfolding contains_recursive
  Stands-step c done w e ch s = record {
    split = s.split ∙ sym (append_assoc done (c ∷ []) w);
    reached = λ u.
        ap (λ v. contains_recursive v whole) (append_assoc done (c ∷ []) u) ∙ s.reached (c ∷ u);
  }

  no_words :
      (e : Bool) (ch : ℕ → TrieNode) (u : List ℕ) → contains_recursive u (node e true ch) ≡ false
  unfolding contains_recursive
  no_words e ch [] = refl
  no_words e ch (c ∷ u) = refl

  no_node : (u : List ℕ) → contains_recursive u null ≡ false
  unfolding contains_recursive
  no_node [] = refl
  no_node (c ∷ u) = refl

  longest_loop-IsLongest :
      (w done r : List ℕ) (t : TrieNode)
      → Stands done w t
      → IsLongest (length done) r
      → IsLongest (suc (length word)) (longest_loop w done t r)
  unfolding longest_loop
  longest_loop-IsLongest [] done r null s l = IsLongest-stop done [] r null s no_node l
  longest_loop-IsLongest (c ∷ w) done r null s l = IsLongest-stop done (c ∷ w) r null s no_node l
  longest_loop-IsLongest [] done r (node e true ch) s l =
      IsLongest-stop done [] r (node e true ch) s (no_words e ch) l
  longest_loop-IsLongest (c ∷ w) done r (node e true ch) s l =
      IsLongest-stop done (c ∷ w) r (node e true ch) s (no_words e ch) l
  longest_loop-IsLongest [] done r (node e false ch) s l =
      subst (λ n. IsLongest (suc n) (if e then done else r))
        (sym (ap length (s.split ∙ append-nil done))) (IsLongest-step done [] r e ch s l)
  longest_loop-IsLongest (c ∷ w) done r (node e false ch) s l =
      longest_loop-IsLongest w (done ++ c ∷ []) (if e then done else r) (ch (char_to_index c))
        (Stands-step c done w e ch s)
        (subst (λ n. IsLongest n (if e then done else r))
          (omega (arith, length-append done (c ∷ []))) (IsLongest-step done (c ∷ w) r e ch s l))

in_or_nil :
    (r : List ℕ) (t : Trie)
    → (is_nil r ≡ false → contains_recursive r t.root ≡ true)
    → (is_nil r || contains r t) ≡ true
unfolding contains
in_or_nil [] t h = refl
in_or_nil (c ∷ r) t h = h refl

word_in : (a : List ℕ) (t : Trie) → contains a t ≡ true → contains_recursive a t.root ≡ true
unfolding contains
word_in [] t h = cc h
word_in (c ∷ a) t h = h

-- `longest_prefix` returns a beginning of the word; it is empty or in the trie as a word, and no
-- beginning that is in the trie is longer: where none is in, it is the empty word.
pub longest_prefix_lem :
    (word : List ℕ) (t : Trie)
    → (let r = longest_prefix word t in
        ((c : List ℕ) × (word ≡ r ++ c))
        × ((is_nil r || contains r t) ≡ true)
        × ((a b : List ℕ) → word ≡ a ++ b → contains a t ≡ true → length a ≤ length r))
unfolding longest_prefix
longest_prefix_lem word t =
    let l =
      longest_loop-IsLongest t.root word word [] [] t.root
        (record { split = refl; reached = λ u. refl })
        (record {
          begun = (word, refl);
          is_word = λ n. cc n;
          longest = λ x y p q g. omega (arith, g);
        }) in
    (
      l.begun,
      in_or_nil (longest_prefix word t) t l.is_word,
      (λ a b e h. l.longest a b e (word_in a t h) (omega (arith, ap length e, length-append a b))),
    )
