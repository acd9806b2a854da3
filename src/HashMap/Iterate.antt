-- ===== src/HashMap/Iterate.antt =====
-- The iterator of atomic_hashmap.hpp.
use cpp_lockfree_structures.Prelude.{
  ℕ, zero, suc, ◌+◌, ◌<◌, ◌≤◌, ◌≡◌, refl, ap, Bool, true, false, ◌&&◌, Option, none, some, List, [],
  ◌∷◌, ◌++◌, inl, inr, length, is_nil, lt→ltb, ge→ltb, ◌==◌, eq→==, ne→==, if◌then◌else◌, arith,
  Bool-cases,
}
use native.Mathlib.Decide.{dec_lt}
use mathlib.Core.Option
use cpp_lockfree_structures.HashMap.{
  Node, HashMap, Iterator, skip_deleted, advance_loop, advance_to_next_valid, begin, next, empty,
  empty_chain, empty_loop,
}

module _ {ℓ κ} {K : Type ℓ} {V : Type κ} where
  -- The pairs of a chain, and of the buckets from one on.
  unfoldable pub pairs : List (Node K V) → List (K × V)
  pairs [] = []
  pairs (c ∷ rest) = let later = pairs rest in if c.deleted then later else (c.key, c.value) ∷ later

  unfoldable pub all_pairs : ℕ → ℕ → HashMap K V → List (K × V)
  all_pairs zero i m = []
  all_pairs (suc n) i m = pairs (m.buckets i) ++ all_pairs n (suc i) m

  unfoldable pub nodes : ℕ → ℕ → HashMap K V → ℕ
  nodes zero i m = 0
  nodes (suc n) i m = length (m.buckets i) + nodes n (suc i) m

  -- What a loop `for (it = ...; it != end(); ++it)` reads, with fuel; `none` where it would read
  -- through a null pointer.
  unfoldable pub visit : ℕ → HashMap K V → Iterator K V → Option (List (K × V))
  visit zero m it = none
  visit (suc f) m it =
      if it.bucket_index == m.bucket_count && is_nil it.current then some [] else elim it.current [
        | [] ↦ none
        | c ∷ rest ↦ Option.map (λ ps. (c.key, c.value) ∷ ps) (visit f m (next m it))
      ]

  advance_loop-fuel :
      (n n' : ℕ) (m : HashMap K V) (i : ℕ) (current : List (Node K V))
      → i ≤ m.bucket_count
      → m.bucket_count < i + n
      → m.bucket_count < i + n'
      → advance_loop n m i current ≡ advance_loop n' m i current
  unfolding advance_loop
  advance_loop-fuel zero n' m i current h g g' = absurd (omega arith)
  advance_loop-fuel (suc n) zero m i current h g g' = absurd (omega arith)
  advance_loop-fuel (suc n) (suc n') m i (c ∷ rest) h g g' = refl
  advance_loop-fuel (suc n) (suc n') m i [] h g g' = elim (dec_lt i m.bucket_count) [
    | yes lt ↦
        rw
          (
            lt→ltb i m.bucket_count lt,
            advance_loop-fuel n n' m (suc i) [] (omega arith) (omega arith) (omega arith),
            advance_loop-fuel n n' m (suc i) (skip_deleted (m.buckets (suc i))) (omega arith)
                (omega arith) (omega arith),
          )
          refl
    | no d ↦ rw (ge→ltb i m.bucket_count (omega arith)) refl
  ]

  module _ (m : HashMap K V) where
    advance : ℕ → List (Node K V) → Iterator K V
    advance i current = advance_to_next_valid m (record { bucket_index = i; current = current })

    advance-deleted :
        (i : ℕ) (c : Node K V) (rest : List (Node K V))
        → c.deleted ≡ true
        → advance i (c ∷ rest) ≡ advance i rest
    unfolding advance advance_to_next_valid skip_deleted
    advance-deleted i c rest d =
        ap (advance_loop (suc m.bucket_count) m i)
          (ap (λ b. if b then skip_deleted rest else c ∷ rest) d)

    advance-live :
        (i : ℕ) (c : Node K V) (rest : List (Node K V))
        → c.deleted ≡ false
        → advance i (c ∷ rest) ≡ record { bucket_index = i; current = c ∷ rest }
    unfolding advance advance_to_next_valid skip_deleted advance_loop
    advance-live i c rest d =
        ap (λ b. advance_loop (suc m.bucket_count) m i (if b then skip_deleted rest else c ∷ rest))
          d

    advance-on :
        (i : ℕ) → suc i < m.bucket_count → advance i [] ≡ advance (suc i) (m.buckets (suc i))
    unfolding advance advance_to_next_valid skip_deleted advance_loop
    advance-on i h =
        rw (lt→ltb i m.bucket_count (omega arith), lt→ltb (suc i) m.bucket_count h)
          (advance_loop-fuel m.bucket_count (suc m.bucket_count) m (suc i)
            (skip_deleted (m.buckets (suc i))) (omega arith) (omega arith) (omega arith))

    advance_over :
        (i : ℕ)
        → suc i ≡ m.bucket_count
        → advance i [] ≡ record { bucket_index = m.bucket_count; current = [] }
    unfolding advance advance_to_next_valid skip_deleted advance_loop
    advance_over i h =
        rw
          (
            lt→ltb i m.bucket_count (omega arith),
            ge→ltb (suc i) m.bucket_count (omega arith),
            advance_loop-fuel m.bucket_count (suc m.bucket_count) m (suc i) [] (omega arith)
                (omega arith) (omega arith),
            h,
            ge→ltb m.bucket_count m.bucket_count (omega arith),
          )
          refl

    visit-end :
        (f : ℕ) → visit (suc f) m (record { bucket_index = m.bucket_count; current = [] }) ≡ some []
    unfolding visit
    visit-end f = rw (eq→== m.bucket_count m.bucket_count refl) refl

    visit-step :
        (f i : ℕ) (c : Node K V) (rest : List (Node K V))
        → i < m.bucket_count
        → visit (suc f) m (record { bucket_index = i; current = c ∷ rest })
          ≡ Option.map (λ ps. (c.key, c.value) ∷ ps) (visit f m (advance i rest))
    unfolding visit next advance
    visit-step f i c rest h = rw (ne→== i m.bucket_count (omega arith)) refl

    pairs-deleted :
        (c : Node K V) (rest : List (Node K V)) → c.deleted ≡ true → pairs (c ∷ rest) ≡ pairs rest
    unfolding pairs
    pairs-deleted c rest d = ap (λ b. if b then pairs rest else (c.key, c.value) ∷ pairs rest) d

    pairs-live :
        (c : Node K V) (rest : List (Node K V))
        → c.deleted ≡ false
        → pairs (c ∷ rest) ≡ (c.key, c.value) ∷ pairs rest
    unfolding pairs
    pairs-live c rest d = ap (λ b. if b then pairs rest else (c.key, c.value) ∷ pairs rest) d

    pairs-nil : pairs [] ≡ []
    unfolding pairs
    pairs-nil = refl

    all_pairs-zero : (i : ℕ) → all_pairs zero i m ≡ []
    unfolding all_pairs
    all_pairs-zero i = refl

    all_pairs-suc : (n i : ℕ) → all_pairs (suc n) i m ≡ pairs (m.buckets i) ++ all_pairs n (suc i) m
    unfolding all_pairs
    all_pairs-suc n i = refl

    -- The iterator from a place in a chain on, `r` buckets before the last.
    visit-advance :
        (r : ℕ) (current : List (Node K V)) (i f : ℕ)
        → i + suc r ≡ m.bucket_count
        → length current + nodes r (suc i) m < f
        → visit f m (advance i current) ≡ some (pairs current ++ all_pairs r (suc i) m)
    unfolding nodes
    visit-advance r current i zero e h = absurd (omega arith)
    visit-advance r (c ∷ rest) i (suc f) e h = elim (Bool-cases c.deleted) [
      | inl d ↦
          rw (advance-deleted i c rest d, pairs-deleted c rest d)
            (visit-advance r rest i (suc f) e (omega arith))
      | inr d ↦
          rw
            (
              advance-live i c rest d,
              pairs-live c rest d,
              visit-step f i c rest (omega arith),
              visit-advance r rest i f e (omega arith),
            )
            refl
    ]
    visit-advance zero [] i (suc f) e h =
        rw (advance_over i (omega arith), visit-end f, pairs-nil, all_pairs-zero (suc i)) refl
    visit-advance (suc r) [] i (suc f) e h =
        rw
          (
            advance-on i (omega arith),
            pairs-nil,
            all_pairs-suc r (suc i),
            visit-advance r (m.buckets (suc i)) (suc i) (suc f) (omega arith) (omega arith),
          )
          refl

    visit_buckets :
        (n : ℕ)
        → n ≡ m.bucket_count
        → 0 < n
        → visit (suc (nodes n 0 m)) m (begin m) ≡ some (all_pairs n 0 m)
    unfolding begin nodes advance
    visit_buckets zero e h = absurd (omega arith)
    visit_buckets (suc r) e h =
        rw (lt→ltb 0 m.bucket_count (omega arith), all_pairs-suc r 0)
          (visit-advance r (m.buckets 0) 0 (suc (length (m.buckets 0) + nodes r 1 m)) (omega arith)
            (omega arith))

  empty_chain-pairs : (chain : List (Node K V)) → empty_chain chain ≡ is_nil (pairs chain)
  unfolding empty_chain pairs
  empty_chain-pairs [] = refl
  empty_chain-pairs (c ∷ rest) = ground (arith, empty_chain-pairs rest)

  is_nil-append : (a b : List (K × V)) → is_nil (a ++ b) ≡ (is_nil a && is_nil b)
  is_nil-append [] b = refl
  is_nil-append (x ∷ a) b = refl

  empty_loop-pairs : (n i : ℕ) (m : HashMap K V) → empty_loop n i m ≡ is_nil (all_pairs n i m)
  unfolding empty_loop all_pairs
  empty_loop-pairs zero i m = refl
  empty_loop-pairs (suc n) i m =
      rw
        (
          is_nil-append (pairs (m.buckets i)) (all_pairs n (suc i) m),
          empty_chain-pairs (m.buckets i),
          empty_loop-pairs n (suc i) m,
        )
        (if-and (is_nil (pairs (m.buckets i))) (is_nil (all_pairs n (suc i) m)))
    where
      if-and : (a b : Bool) → (if a then b else false) ≡ (a && b)
      if-and true b = refl
      if-and false b = refl

  -- `begin` and `operator++` visit exactly the pairs that are in, bucket by bucket, and reach `end`
  -- without reading through a null pointer, within as many steps as there are nodes; and `empty`
  -- answers whether there are none. The map has a bucket.
  pub visit-begin :
      (m : HashMap K V)
      → 0 < m.bucket_count
      → (visit (suc (nodes m.bucket_count 0 m)) m (begin m) ≡ some (all_pairs m.bucket_count 0 m))
        × (empty m ≡ is_nil (all_pairs m.bucket_count 0 m))
  unfolding empty
  visit-begin m h = (visit_buckets m m.bucket_count refl h, empty_loop-pairs m.bucket_count 0 m)
