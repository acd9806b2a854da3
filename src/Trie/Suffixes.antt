-- ===== src/Trie/Suffixes.antt =====
-- What `collect_words_with_prefix` of atomic_trie.hpp collects below a node: the endings of the words.
use cpp_lockfree_structures.Prelude.{
  ℕ, zero, suc, ◌+◌, ◌%◌, ◌≡◌, refl, sym, ap, ap₂, ◌∙◌, Bool, true, false, ◌&&◌, List, [], ◌∷◌,
  ◌++◌, append_assoc, append-nil, map, inl, inr, ltb, leb, ◌==◌, ==→eq, ltb→lt, if◌then◌else◌,
  arith, Bool-cases,
}
use cpp_lockfree_structures.Trie.{
  TrieNode, null, node, alphabet_size, contains_recursive, is_live, collect_children, collect_words,
}

abbrev pub eq_word : List ℕ → List ℕ → Bool
eq_word [] [] = true
eq_word [] (d ∷ v) = false
eq_word (c ∷ u) [] = false
eq_word (c ∷ u) (d ∷ v) = (c == d) && eq_word u v

-- How often a word is in a list.
abbrev pub times : List ℕ → List (List ℕ) → ℕ
times w [] = 0
times w (v ∷ l) = let later = times w l in if eq_word w v then suc later else later

-- The characters are indices.
abbrev pub is_small : List ℕ → Bool
is_small [] = true
is_small (c ∷ u) = ltb c 256 && is_small u

times-append : (w : List ℕ) (l m : List (List ℕ)) → times w (l ++ m) ≡ times w l + times w m
times-append w [] m = omega arith
times-append w (v ∷ l) m = ground (arith, times-append w l m)

abbrev extend : List ℕ → List (List ℕ) → List (List ℕ)
extend p l = map (λ u. p ++ u) l

-- `w` begins with `p`, and what is left of it then.
abbrev pub begins : List ℕ → List ℕ → Bool
begins [] w = true
begins (c ∷ p) [] = false
begins (c ∷ p) (d ∷ w) = (c == d) && begins p w

abbrev pub rest_after : List ℕ → List ℕ → List ℕ
rest_after [] w = w
rest_after (c ∷ p) [] = []
rest_after (c ∷ p) (d ∷ w) = rest_after p w

eq_word-begins : (p w v : List ℕ) → eq_word w (p ++ v) ≡ (begins p w && eq_word (rest_after p w) v)
eq_word-begins [] w v = refl
eq_word-begins (c ∷ p) [] v = refl
eq_word-begins (c ∷ p) (d ∷ w) v = grind (arith, eq_word-begins p w v)

pub times-extend :
    (p w : List ℕ) (l : List (List ℕ))
    → times w (extend p l) ≡ (if begins p w then times (rest_after p w) l else 0)
times-extend p w [] = ground arith
times-extend p w (v ∷ l) = ground (arith, eq_word-begins p w v, times-extend p w l)

pub rest_after-append : (p w : List ℕ) → begins p w ≡ true → p ++ rest_after p w ≡ w
rest_after-append [] w h = refl
rest_after-append (c ∷ p) [] h = cc h
rest_after-append (c ∷ p) (d ∷ w) h =
    ap₂ (λ x l. x ∷ l) (==→eq c d (ground (arith, h))) (rest_after-append p w (ground (arith, h)))

times_longer : (i : ℕ) (l : List (List ℕ)) → times [] (extend (i ∷ []) l) ≡ 0
times_longer i [] = refl
times_longer i (v ∷ l) = times_longer i l

times_one :
    (c i : ℕ) (u : List ℕ) (l : List (List ℕ))
    → times (c ∷ u) (extend (i ∷ []) l) ≡ (if c == i then times u l else 0)
times_one c i u [] = ground arith
times_one c i u (v ∷ l) = ground (arith, times_one c i u l)

-- The words below a node, from the node on.
below_children : ℕ → ℕ → (ℕ → Bool) → (ℕ → List (List ℕ)) → List (List ℕ)
below_children zero i live below = []
below_children (suc n) i live below =
    let later = below_children n (suc i) live below in
    if live i then extend (i ∷ []) (below i) ++ later else later

pub suffixes : TrieNode → List (List ℕ)
suffixes null = []
suffixes (node e d ch) =
    let below = below_children alphabet_size 0 (λ i. is_live (ch i)) (λ i. suffixes (ch i)) in
    if d then [] else (if e then [] ∷ below else below)

extend-append : (p : List ℕ) (l m : List (List ℕ)) → extend p (l ++ m) ≡ extend p l ++ extend p m
extend-append p [] m = refl
extend-append p (v ∷ l) m = ap (λ k. (p ++ v) ∷ k) (extend-append p l m)

extend_twice :
    (p : List ℕ) (i : ℕ) (l : List (List ℕ)) → extend p (extend (i ∷ []) l) ≡ extend (p ++ i ∷ []) l
extend_twice p i [] = refl
extend_twice p i (v ∷ l) = ap₂ (λ x k. x ∷ k) (sym (append_assoc p (i ∷ []) v)) (extend_twice p i l)

collected_below :
    (n i : ℕ) (live : ℕ → Bool) (f : ℕ → List ℕ → List (List ℕ)) (g : ℕ → List (List ℕ))
    (w : List ℕ)
    → ((j : ℕ) (v : List ℕ) → f j v ≡ extend v (g j))
    → collect_children n i live f w ≡ extend w (below_children n i live g)
unfolding collect_children below_children
collected_below zero i live f g w h = refl
collected_below (suc n) i live f g w h = elim (Bool-cases (live i)) [
  | inl e ↦ rw e (
      ap₂ (λ l m. l ++ m) (h i (w ++ i ∷ []) ∙ sym (extend_twice w i (g i)))
        (collected_below n (suc i) live f g w h)
      ∙ sym (extend-append w (extend (i ∷ []) (g i)) (below_children n (suc i) live g)))
  | inr e ↦ rw e (collected_below n (suc i) live f g w h)
]

pub collected : (t : TrieNode) (w : List ℕ) → collect_words t w ≡ extend w (suffixes t)
unfolding collect_words suffixes
collected null w = refl
collected (node e true ch) w = refl
collected (node true false ch) w =
    ap₂ (λ x l. x ∷ l) (sym (append-nil w))
      (collected_below 256 0 (λ i. is_live (ch i)) (λ i. collect_words (ch i))
        (λ i. suffixes (ch i)) w (λ j v. collected (ch j) v))
collected (node false false ch) w =
    collected_below 256 0 (λ i. is_live (ch i)) (λ i. collect_words (ch i)) (λ i. suffixes (ch i)) w
      (λ j v. collected (ch j) v)

no_empty :
    (n i : ℕ) (live : ℕ → Bool) (g : ℕ → List (List ℕ)) → times [] (below_children n i live g) ≡ 0
unfolding below_children
no_empty zero i live g = refl
no_empty (suc n) i live g = elim (Bool-cases (live i)) [
  | inl e ↦ rw e (
      omega (
        arith,
        times-append [] (extend (i ∷ []) (g i)) (below_children n (suc i) live g),
        times_longer i (g i),
        no_empty n (suc i) live g,
      ))
  | inr e ↦ rw e (no_empty n (suc i) live g)
]

times_below :
    (n i c : ℕ) (u : List ℕ) (live : ℕ → Bool) (g : ℕ → List (List ℕ))
    → times (c ∷ u) (below_children n i live g)
      ≡ (if leb i c && ltb c (i + n) && live c then times u (g c) else 0)
unfolding below_children
times_below zero i c u live g = ground arith
times_below (suc n) i c u live g =
    let ih = times_below n (suc i) c u live g in
    elim (Bool-cases (live i)) [
      | inl e ↦
          let one = times_one c i u (g i) in
          let both =
            times-append (c ∷ u) (extend (i ∷ []) (g i)) (below_children n (suc i) live g) in
          rw e (elim (Bool-cases (c == i)) [
            | inl q ↦
                let p = ==→eq c i q in
                ground (arith, both, one, ih, q, p, e, ap live p, ap (λ j. times u (g j)) p)
            | inr q ↦ ground (arith, both, one, ih, q)
          ])
      | inr e ↦ rw e (elim (Bool-cases (c == i)) [
        | inl q ↦ let p = ==→eq c i q in ground (arith, ih, q, p, e, ap live p)
        | inr q ↦ ground (arith, ih, q)
      ])
    ]

dead : (u : List ℕ) (t : TrieNode) → is_live t ≡ false → contains_recursive u t ≡ false
unfolding contains_recursive is_live
dead [] null h = refl
dead (c ∷ u) null h = refl
dead [] (node e true ch) h = refl
dead (c ∷ u) (node e true ch) h = refl
dead u (node e false ch) h = cc h

-- The words of a node that begin with `c` are those of its child.
below_child :
    (c : ℕ) (u : List ℕ) (ch : ℕ → TrieNode)
    → times u (suffixes (ch c)) ≡ (if is_small u && contains_recursive u (ch c) then 1 else 0)
    → (if leb 0 c && ltb c (0 + 256) && is_live (ch c) then times u (suffixes (ch c)) else 0)
      ≡ (if is_small (c ∷ u) && contains_recursive (c ∷ u) (node true false ch) then 1 else 0)
unfolding contains_recursive
below_child c u ch h = elim (Bool-cases (ltb c 256)) [
  | inl b ↦
      let m : c % 256 ≡ c = omega (arith, ltb→lt c 256 b) in
      elim (Bool-cases (is_live (ch c))) [
        | inl l ↦ ground (arith, b, l, h, ap (λ j. contains_recursive u (ch j)) m)
        | inr l ↦ ground (arith, b, l, dead u (ch c) l, ap (λ j. contains_recursive u (ch j)) m)
      ]
  | inr b ↦ ground (arith, b)
]

pub times-suffixes :
    (u : List ℕ) (t : TrieNode)
    → times u (suffixes t) ≡ (if is_small u && contains_recursive u t then 1 else 0)
unfolding contains_recursive suffixes
times-suffixes [] null = refl
times-suffixes (c ∷ u) null = ground arith
times-suffixes [] (node e true ch) = refl
times-suffixes (c ∷ u) (node e true ch) = ground arith
times-suffixes [] (node true false ch) =
    ap suc (no_empty 256 0 (λ i. is_live (ch i)) (λ i. suffixes (ch i)))
times-suffixes [] (node false false ch) =
    no_empty 256 0 (λ i. is_live (ch i)) (λ i. suffixes (ch i))
times-suffixes (c ∷ u) (node true false ch) =
    times_below 256 0 c u (λ i. is_live (ch i)) (λ i. suffixes (ch i))
    ∙ below_child c u ch (times-suffixes u (ch c))
times-suffixes (c ∷ u) (node false false ch) =
    times_below 256 0 c u (λ i. is_live (ch i)) (λ i. suffixes (ch i))
    ∙ below_child c u ch (times-suffixes u (ch c))
