-- ===== src/HashSet/Iterate.antt =====
-- The iterator of atomic_set.hpp visits the elements, bucket by bucket.
use cpp_lockfree_structures.Prelude.{
  ℕ, zero, suc, ◌+◌, ◌<◌, ◌≡◌, refl, sym, ap, ap₂, ◌∙◌, false, ◌&&◌, Option, none, some, List, [],
  ◌∷◌, ◌++◌, map, is_nil, length, inl, inr, ltb, lt→ltb, ◌==◌, if◌then◌else◌, Bool-cases,
}
use mathlib.Core.Option
use cpp_lockfree_structures.HashMap
use cpp_lockfree_structures.HashMap.{HashMap}
use cpp_lockfree_structures.HashMap.Iterate.{pairs, all_pairs, visit, visit-begin}
use cpp_lockfree_structures.HashSet.{
  Node, Set, Iterator, empty_chain, empty_loop, skip_deleted, advance_loop, advance_to_next_valid,
  begin, next, at_end, to_vector_loop, nodes, rounds, to_vector,
}
use cpp_lockfree_structures.HashSet.Sim.{to_chain, to_map}

module _ {ℓ} {T : Type ℓ} where
  abbrev to_iterator : Iterator T → HashMap.Iterator {ℓ, 0} T Unit
  to_iterator it = record { bucket_index = it.bucket_index; current = to_chain it.current }

  skipped :
      (chain : List (Node T))
      → HashMap.skip_deleted (to_chain chain) ≡ to_chain (skip_deleted chain)
  unfolding HashMap.skip_deleted skip_deleted
  skipped [] = refl
  skipped (c ∷ rest) = elim (Bool-cases c.deleted) [
    | inl e ↦ simp e (skipped rest)
    | inr e ↦ simp e refl
  ]

  advanced :
      (n : ℕ) (s : Set T) (i : ℕ) (current : List (Node T))
      → HashMap.advance_loop n (to_map s) i (to_chain current)
        ≡ to_iterator (advance_loop n s i current)
  unfolding HashMap.advance_loop advance_loop
  advanced zero s i current = refl
  advanced (suc n) s i (c ∷ rest) = refl
  advanced (suc n) s i [] = elim (Bool-cases (ltb i s.bucket_count)) [
    | inl e ↦ elim (Bool-cases (ltb (suc i) s.bucket_count)) [
      | inl e' ↦
          rw (e, e')
            (ap (HashMap.advance_loop n (to_map s) (suc i)) (skipped (s.buckets (suc i)))
              ∙ advanced n s (suc i) (skip_deleted (s.buckets (suc i))))
      | inr e' ↦ rw (e, e') (advanced n s (suc i) [])
    ]
    | inr e ↦ rw e refl
  ]

  moved_on :
      (s : Set T) (it : Iterator T)
      → HashMap.advance_to_next_valid (to_map s) (to_iterator it)
        ≡ to_iterator (advance_to_next_valid s it)
  unfolding HashMap.advance_to_next_valid advance_to_next_valid
  moved_on s it =
      ap (HashMap.advance_loop (suc s.bucket_count) (to_map s) it.bucket_index) (skipped it.current)
      ∙ advanced (suc s.bucket_count) s it.bucket_index (skip_deleted it.current)

  next-to_map :
      (s : Set T) (b : ℕ) (c : Node T) (rest : List (Node T))
      → HashMap.next (to_map s) (to_iterator (record { bucket_index = b; current = c ∷ rest }))
        ≡ to_iterator (next s (record { bucket_index = b; current = c ∷ rest }))
  unfolding HashMap.next next
  next-to_map s b c rest = moved_on s (record { bucket_index = b; current = rest })

  begin-to_map : (s : Set T) → 0 < s.bucket_count → HashMap.begin (to_map s) ≡ to_iterator (begin s)
  unfolding HashMap.begin begin
  begin-to_map s h =
      rw (lt→ltb 0 s.bucket_count h)
        (moved_on s (record { bucket_index = 0; current = s.buckets 0 }))

  abbrev keys : List {ℓ} (T × Unit {0}) → List T
  keys ps = map (λ p. p.0) ps

  abbrev pub at : ℕ → List (Node T) → Iterator T
  at b current = record { bucket_index = b; current = current }

  -- One round of the loops over the map, and over the set.
  visit_end :
      (n : ℕ) (s : Set T) (b : ℕ)
      → visit (suc n) (to_map s) (to_iterator (at b []))
        ≡ (if b == s.bucket_count then some [] else none)
  unfolding visit
  visit_end n s b = elim (Bool-cases (b == s.bucket_count)) [
    | inl e ↦ rw e refl
    | inr e ↦ rw e refl
  ]

  visit_next :
      (n : ℕ) (s : Set T) (b : ℕ) (c : Node T) (rest : List (Node T))
      → visit (suc n) (to_map s) (to_iterator (at b (c ∷ rest)))
        ≡ Option.map
            (λ ps. (c.item, tt) ∷ ps)
            (visit n (to_map s) (to_iterator (next s (at b (c ∷ rest)))))
  unfolding visit
  visit_next n s b c rest =
      ap
        (λ i.
          if b == s.bucket_count && false
          then some []
          else Option.map (λ ps. (c.item, tt) ∷ ps) (visit n (to_map s) i))
        (next-to_map s b c rest)
      ∙ elim (Bool-cases (b == s.bucket_count)) [ inl e ↦ rw e refl | inr e ↦ rw e refl ]

  vector_next :
      (n : ℕ) (s : Set T) (b : ℕ) (c : Node T) (rest : List (Node T))
      → to_vector_loop (suc n) s (at b (c ∷ rest))
        ≡ Option.map (λ l. c.item ∷ l) (to_vector_loop n s (next s (at b (c ∷ rest))))
  unfolding to_vector_loop at_end
  vector_next n s b c rest = elim (Bool-cases (b == s.bucket_count)) [
    | inl e ↦ rw e refl
    | inr e ↦ rw e refl
  ]

  keys-map :
      (x : T) (o : Option (List {ℓ} (T × Unit {0})))
      → Option.map (λ l. x ∷ l) (Option.map keys o)
        ≡ Option.map keys (Option.map (λ ps. (x, tt) ∷ ps) o)
  keys-map x none = refl
  keys-map x (some ps) = refl

  -- `to_vector` visits the keys that a loop over the map visits.
  vector-visit :
      (n : ℕ) (s : Set T) (b : ℕ) (current : List (Node T))
      → to_vector_loop n s (at b current)
        ≡ Option.map keys (visit n (to_map s) (to_iterator (at b current)))
  unfolding to_vector_loop at_end visit
  vector-visit zero s b current = refl
  vector-visit (suc n) s b [] = elim (Bool-cases (b == s.bucket_count)) [
    | inl e ↦ rw e refl
    | inr e ↦ rw e refl
  ]
  vector-visit (suc n) s b (c ∷ rest) =
      let it = next s (at b (c ∷ rest)) in
      vector_next n s b c rest
      ∙ ap (Option.map (λ l. c.item ∷ l)) (vector-visit n s it.bucket_index it.current)
      ∙ keys-map c.item (visit n (to_map s) (to_iterator it))
      ∙ ap (Option.map keys) (sym (visit_next n s b c rest))

  -- The elements of a chain, and of `n` buckets from the bucket `i` on.
  unfoldable pub active : List (Node T) → List T
  active [] = []
  active (c ∷ rest) = let later = active rest in if c.deleted then later else c.item ∷ later

  unfoldable pub elements : ℕ → ℕ → Set T → List T
  elements zero i s = []
  elements (suc n) i s = active (s.buckets i) ++ elements n (suc i) s

  keys-append : (ps qs : List {ℓ} (T × Unit {0})) → keys (ps ++ qs) ≡ keys ps ++ keys qs
  keys-append [] qs = refl
  keys-append (p ∷ ps) qs = ap (λ l. p.0 ∷ l) (keys-append ps qs)

  active-pairs : (chain : List (Node T)) → keys (pairs (to_chain chain)) ≡ active chain
  unfolding pairs active
  active-pairs [] = refl
  active-pairs (c ∷ rest) = elim (Bool-cases c.deleted) [
    | inl e ↦ simp e (active-pairs rest)
    | inr e ↦ simp e (ap (λ l. c.item ∷ l) (active-pairs rest))
  ]

  elements-pairs : (n i : ℕ) (s : Set T) → keys (all_pairs n i (to_map s)) ≡ elements n i s
  unfolding all_pairs elements
  elements-pairs zero i s = refl
  elements-pairs (suc n) i s =
      keys-append (pairs (to_chain (s.buckets i))) (all_pairs n (suc i) (to_map s))
      ∙ ap₂ (λ l m. l ++ m) (active-pairs (s.buckets i)) (elements-pairs n (suc i) s)

  length-to_chain : (chain : List (Node T)) → length (to_chain chain) ≡ length chain
  length-to_chain [] = refl
  length-to_chain (c ∷ rest) = ap suc (length-to_chain rest)

  nodes-to_map : (n i : ℕ) (s : Set T) → HashMap.Iterate.nodes n i (to_map s) ≡ nodes n i s
  unfolding HashMap.Iterate.nodes nodes
  nodes-to_map zero i s = refl
  nodes-to_map (suc n) i s =
      ap₂ (λ a b. a + b) (length-to_chain (s.buckets i)) (nodes-to_map n (suc i) s)

  pub to_vector_lem :
      (s : Set T) → 0 < s.bucket_count → to_vector s ≡ some (elements s.bucket_count 0 s)
  unfolding to_vector
  to_vector_lem s h =
      let it = begin s in
      let n = s.bucket_count in
      vector-visit (rounds s) s it.bucket_index it.current
      ∙ ap (Option.map keys) (
          ap₂ (λ r i. visit r (to_map s) i) (ap suc (sym (nodes-to_map n 0 s)))
            (sym (begin-to_map s h))
          ∙ (visit-begin (to_map s) h).0)
      ∙ ap some (elements-pairs n 0 s)

  empty_active : (chain : List (Node T)) → empty_chain chain ≡ is_nil (active chain)
  unfolding empty_chain active
  empty_active [] = refl
  empty_active (c ∷ rest) = elim (Bool-cases c.deleted) [
    | inl e ↦ simp e (empty_active rest)
    | inr e ↦ simp e refl
  ]

  nil_append : (l m : List T) → is_nil (l ++ m) ≡ (if is_nil l then is_nil m else false)
  nil_append [] m = refl
  nil_append (x ∷ l) m = refl

  pub empty_lem : (n i : ℕ) (s : Set T) → empty_loop n i s ≡ is_nil (elements n i s)
  unfolding empty_loop elements
  empty_lem zero i s = refl
  empty_lem (suc n) i s =
      ap₂ (λ a b. if a then b else false) (empty_active (s.buckets i)) (empty_lem n (suc i) s)
      ∙ sym (nil_append (active (s.buckets i)) (elements n (suc i) s))
