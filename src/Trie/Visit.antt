-- ===== src/Trie/Visit.antt =====
-- The iterator of atomic_trie.hpp visits the words that are in, in lexicographic order.
use cpp_lockfree_structures.Prelude.{
  ℕ, zero, suc, ◌+◌, ◌^◌, ◌%◌, ◌<◌, ◌≡◌, refl, sym, ap, ap₂, subst, ◌∙◌, true, false, ◌&&◌, Option,
  none, some, List, [], ◌∷◌, ◌++◌, append_assoc, is_nil, length, length-append, inl, inr,
  if◌then◌else◌, arith, Bool-cases, lt→ltb, le→leb, gt→leb, ne→==,
}
use mathlib.Core.Option
use cpp_lockfree_structures.Trie.{Trie, contains, collect_words}
use cpp_lockfree_structures.Trie.Iterator.{
  Iterator, size_max, leb_word, insert_word, sort, collect_all_words, begin, next, get_elem?, get?,
  at_end,
}
use cpp_lockfree_structures.Trie.Listing.{times-collect_words}
use cpp_lockfree_structures.Trie.Suffixes.{times, is_small}

-- The words that `for (auto& word : trie)` goes through, within `f` rounds.
unfoldable pub visit : ℕ → Iterator → Option (List (List ℕ))
visit zero it = none
visit (suc f) it =
    let later = visit f (next it) in
    if at_end it
    then some []
    else elim (get? it) [ none ↦ none | some w ↦ Option.map (λ ws. w ∷ ws) later ]

-- No word is greater than the next one.
abbrev pub First : List ℕ → List (List ℕ) → Type 0
First w [] = Unit
First w (v ∷ l) = leb_word w v ≡ true

abbrev pub Ascends : List (List ℕ) → Type 0
Ascends [] = Unit
Ascends (w ∷ l) = First w l × Ascends l

not_greater : (u v : List ℕ) → leb_word u v ≡ false → leb_word v u ≡ true
not_greater [] v h = cc h
not_greater (c ∷ u) [] h = refl
not_greater (c ∷ u) (d ∷ v) h = ground (arith, h, not_greater u v)

First-insert_word :
    (v w : List ℕ) (l : List (List ℕ)) → leb_word v w ≡ true → First v l → First v (insert_word w l)
First-insert_word v w [] h f = h
First-insert_word v w (x ∷ l) h f = elim (Bool-cases (leb_word w x)) [
  | inl e ↦ rw e h
  | inr e ↦ rw e f
]

insert_word-Ascends : (w : List ℕ) (l : List (List ℕ)) → Ascends l → Ascends (insert_word w l)
insert_word-Ascends w [] h = (tt, tt)
insert_word-Ascends w (v ∷ l) h = elim (Bool-cases (leb_word w v)) [
  | inl e ↦ rw e (e, h)
  | inr e ↦ rw e (First-insert_word v w l (not_greater w v e) h.0, insert_word-Ascends w l h.1)
]

sort-Ascends : (l : List (List ℕ)) → Ascends (sort l)
sort-Ascends [] = tt
sort-Ascends (w ∷ l) = insert_word-Ascends w (sort l) (sort-Ascends l)

times-insert_word : (u w : List ℕ) (l : List (List ℕ)) → times u (insert_word w l) ≡ times u (w ∷ l)
times-insert_word u w [] = refl
times-insert_word u w (v ∷ l) = ground (arith, times-insert_word u w l)

times-sort : (u : List ℕ) (l : List (List ℕ)) → times u (sort l) ≡ times u l
times-sort u [] = refl
times-sort u (w ∷ l) = ground (arith, times-insert_word u w (sort l), times-sort u l)

length-insert_word : (w : List ℕ) (l : List (List ℕ)) → length (insert_word w l) ≡ suc (length l)
length-insert_word w [] = refl
length-insert_word w (v ∷ l) = ground (arith, length-insert_word w l)

length-sort : (l : List (List ℕ)) → length (sort l) ≡ length l
length-sort [] = refl
length-sort (w ∷ l) = length-insert_word w (sort l) ∙ ap suc (length-sort l)

get_elem?-append :
    (p : List (List ℕ)) (w : List ℕ) (l : List (List ℕ))
    → get_elem? (p ++ w ∷ l) (length p) ≡ some w
get_elem?-append [] w l = refl
get_elem?-append (v ∷ p) w l = get_elem?-append p w l

visit-step :
    (f : ℕ) (it : Iterator) (w : List ℕ)
    → at_end it ≡ false
    → get? it ≡ some w
    → visit (suc f) it ≡ Option.map (λ ws. w ∷ ws) (visit f (next it))
unfolding visit
visit-step f it w e g = rw (e, g) refl

next_index :
    (p : List (List ℕ)) (w : List ℕ) (l : List (List ℕ))
    → length (p ++ w ∷ l) < size_max
    → next (record { words = p ++ w ∷ l; current_index = length p })
      ≡ record { words = p ++ w ∷ l; current_index = if is_nil l then size_max else suc (length p) }
unfolding next
next_index p w [] h =
    let n = length-append p (w ∷ []) in
    let m : (length p + 1) % 2 ^ 64 ≡ suc (length p) = omega (arith, n, h) in
    rw
      (
        lt→ltb (length p) (length (p ++ w ∷ [])) (omega (arith, n)),
        m,
        le→leb (length (p ++ w ∷ [])) (suc (length p)) (omega (arith, n)),
      )
      refl
next_index p w (v ∷ l) h =
    let n = length-append p (w ∷ v ∷ l) in
    let m : (length p + 1) % 2 ^ 64 ≡ suc (length p) = omega (arith, n, h) in
    rw
      (
        lt→ltb (length p) (length (p ++ w ∷ v ∷ l)) (omega (arith, n)),
        m,
        gt→leb (length (p ++ w ∷ v ∷ l)) (suc (length p)) (omega (arith, n)),
      )
      refl

not_at_end :
    (p : List (List ℕ)) (w : List ℕ) (l : List (List ℕ))
    → length (p ++ w ∷ l) < size_max
    → at_end (record { words = p ++ w ∷ l; current_index = length p }) ≡ false
unfolding at_end
not_at_end p w l h =
    let n = length-append p (w ∷ l) in
    ne→== (length p) size_max (λ e. absurd (omega (arith, n, h, e)))

visit-end :
    (f : ℕ) (ws : List (List ℕ))
    → visit (suc f) (record { words = ws; current_index = size_max }) ≡ some []
unfolding visit at_end
visit-end f ws = refl

-- From the position behind `p` on.
visit-append :
    (l : List (List ℕ)) (f : ℕ) (p : List (List ℕ)) (w : List ℕ)
    → length (p ++ w ∷ l) < size_max
    → length l < f
    → visit (suc f) (record { words = p ++ w ∷ l; current_index = length p }) ≡ some (w ∷ l)
unfolding at_end get?
visit-append l zero p w h b = absurd (omega arith)
visit-append [] (suc f) p w h b =
    visit-step (suc f) (record { words = p ++ w ∷ []; current_index = length p }) w
      (not_at_end p w [] h) (get_elem?-append p w [])
    ∙ ap (λ it. Option.map (λ ws. w ∷ ws) (visit (suc f) it)) (next_index p w [] h)
    ∙ ap (Option.map (λ ws. w ∷ ws)) (visit-end f (p ++ w ∷ []))
visit-append (v ∷ l) (suc f) p w h b =
    visit-step (suc f) (record { words = p ++ w ∷ v ∷ l; current_index = length p }) w
      (not_at_end p w (v ∷ l) h) (get_elem?-append p w (v ∷ l))
    ∙ ap (λ it. Option.map (λ ws. w ∷ ws) (visit (suc f) it)) (next_index p w (v ∷ l) h)
    ∙ ap (Option.map (λ ws. w ∷ ws)) (
        ap₂ (λ ws i. visit (suc f) (record { words = ws; current_index = i }))
          (sym (append_assoc p (w ∷ []) (v ∷ l))) (omega (arith, length-append p (w ∷ [])))
        ∙ visit-append l f (p ++ w ∷ []) v
            (subst (λ ws. length ws < size_max) (sym (append_assoc p (w ∷ []) (v ∷ l))) h)
            (omega (arith, b)))

visit_all :
    (ws : List (List ℕ)) (f : ℕ)
    → length ws < size_max
    → length ws < f
    → visit f (record { words = ws; current_index = if is_nil ws then size_max else 0 }) ≡ some ws
visit_all ws zero h b = absurd (omega arith)
visit_all [] (suc f) h b = visit-end f []
visit_all (w ∷ l) (suc f) h b = visit-append l f [] w h (omega (arith, b))

-- A loop over a trie of fewer than `SIZE_MAX` words ends within one round more than there are words, and
-- visits them in lexicographic order; a non-empty word comes once if its characters are less than 256 and
-- `contains` finds it, and else not at all.
pub visit_words :
    (t : Trie)
    → length (collect_all_words t) < size_max
    → (ws : List (List ℕ)) × (visit (suc (length (collect_all_words t))) (begin t) ≡ some ws)
      × Ascends ws
      × ((c : ℕ) (u : List ℕ)
          → times (c ∷ u) ws ≡ (if is_small (c ∷ u) && contains (c ∷ u) t then 1 else 0))
unfolding begin collect_all_words contains
visit_words t h = (
  sort (collect_words t.root []),
  visit_all (sort (collect_words t.root [])) (suc (length (sort (collect_words t.root [])))) h
      (omega arith),
  sort-Ascends (collect_words t.root []),
  λ c u. times-sort (c ∷ u) (collect_words t.root []) ∙ times-collect_words (c ∷ u) t.root,
)
