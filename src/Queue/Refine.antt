-- ===== src/Queue/Refine.antt =====
-- The operations of atomic_queue.hpp as those of a FIFO, while no compare-exchange on `head_` fails.
use cpp_lockfree_structures.Prelude.{
  ℕ, zero, suc, ◌+◌, ◌-◌, ◌<◌, ◌≤◌, ◌≡◌, inl, inr, refl, sym, ap, ◌∙◌, Bool, true, false, Option,
  some, List, [], ◌∷◌, ◌++◌, map, length, head?, is_nil, eq→==, ne→==, arith, Bool-cases,
}
use native.Mathlib.Decide.{ℕ_discrete}
use cpp_lockfree_structures.BoundedQueue.{pop}
use cpp_lockfree_structures.Outcomes.{head_fails, tail, spurious, tail-spurious, spurious-tail}
use cpp_lockfree_structures.Queue.{
  Queue, max_attempts, advance_tail, enqueue_loop, enqueue, dequeue_loop, dequeue, empty, size_loop,
  size, front,
}

module _ {ℓ} {A : Type ℓ} where
  -- The items `xs`, with the tail `t` nodes behind the dummy.
  abbrev pub laid : List A → ℕ → Queue A
  laid xs t = record { nodes = map some xs; tail_ = t }

  pub length-map-some : (xs : List A) → length (map some xs) ≡ length xs
  length-map-some [] = refl
  length-map-some (x ∷ xs) = ap suc (length-map-some xs)

  map-some-snoc : (xs : List A) (x : A) → map some xs ++ some x ∷ [] ≡ map some (xs ++ x ∷ [])
  map-some-snoc [] x = refl
  map-some-snoc (y ∷ xs) x = ap (λ l. some y ∷ l) (map-some-snoc xs x)

  -- What an enqueue of `x` behind `xs` comes to: the item is behind the others, and the tail is at
  -- the last node or the one before.
  abbrev pub Enqueued : A → List A → Bool × Queue A → Type ℓ
  Enqueued x xs r =
      (t : ℕ) × (r ≡ (true, laid (xs ++ x ∷ []) t)) × (t ≤ suc (length xs)) × (length xs ≤ t)

  enqueue_loop_lem :
      (n : ℕ) (weak : List Bool) (x : A) (xs : List A) (t : ℕ)
      → t ≤ length xs
      → spurious weak + (length xs - t) < n
      → Enqueued x xs (enqueue_loop n weak x (laid xs t))
  unfolding enqueue_loop advance_tail
  enqueue_loop_lem zero weak x xs t h g = absurd (omega arith)
  enqueue_loop_lem (suc n) weak x xs t h g = elim (ℕ_discrete t (length xs)) [
    | yes e ↦ elim (Bool-cases (head_fails weak)) [
      | inl w ↦
          rw (eq→== t (length (map some xs)) (e ∙ sym (length-map-some xs)), w)
            (enqueue_loop_lem n (tail weak) x xs t h (omega (arith, g, tail-spurious weak w)))
      | inr w ↦
          rw (eq→== t (length (map some xs)) (e ∙ sym (length-map-some xs)), w, map-some-snoc xs x)
            (elim (Bool-cases (head_fails (tail weak))) [
              | inl w' ↦ (t, rw w' refl, omega arith, omega arith)
              | inr w' ↦ (t + 1, rw w' refl, omega arith, omega arith)
            ])
    ]
    | no d ↦ elim (Bool-cases (head_fails weak)) [
      | inl w ↦
          rw (ne→== t (length (map some xs)) (λ e. d (e ∙ length-map-some xs)), w)
            (enqueue_loop_lem n (tail weak) x xs t h (omega (arith, g, tail-spurious weak w)))
      | inr w ↦
          rw (ne→== t (length (map some xs)) (λ e. d (e ∙ length-map-some xs)), w)
            (enqueue_loop_lem n (tail weak) x xs (t + 1) (omega arith)
              (omega (arith, g, spurious-tail weak w)))
    ]
  ]

  -- On a queue that holds a list, its tail anywhere on it, `enqueue` links the item behind the
  -- others and leaves at most one node behind the tail, if the failing compare-exchanges and
  -- the nodes behind the tail are fewer than 1000 together.
  pub enqueue_behind :
      (weak : List Bool) (x : A) (xs : List A) (t : ℕ)
      → t ≤ length xs
      → spurious weak + (length xs - t) < 1000
      → Enqueued x xs (enqueue weak x (laid xs t))
  unfolding enqueue
  enqueue_behind weak x xs t h g = enqueue_loop_lem max_attempts weak x xs t h g

  -- What a dequeue from `xs` comes to.
  abbrev pub Dequeued : List A → Option A × Queue A → Type ℓ
  Dequeued xs r = (t : ℕ) × (r ≡ ((pop xs).0, laid (pop xs).1 t)) × (t ≤ length (pop xs).1)

  dequeue_loop_lem :
      (n : ℕ) (weak : List Bool) (xs : List A) (t : ℕ)
      → t ≤ length xs
      → spurious weak + (1 - t) < n
      → Dequeued xs (dequeue_loop n weak false (laid xs t))
  unfolding dequeue_loop advance_tail
  dequeue_loop_lem zero weak xs t h g = absurd (omega arith)
  dequeue_loop_lem (suc n) weak [] zero h g = (0, refl, omega arith)
  dequeue_loop_lem (suc n) weak [] (suc t) h g = absurd (omega arith)
  dequeue_loop_lem (suc n) weak (x ∷ xs) zero h g = elim (Bool-cases (head_fails weak)) [
    | inl w ↦
        rw w (dequeue_loop_lem n (tail weak) (x ∷ xs) 0 h (omega (arith, g, tail-spurious weak w)))
    | inr w ↦ rw w (
        dequeue_loop_lem n (tail weak) (x ∷ xs) 1 (omega arith)
          (omega (arith, g, spurious-tail weak w)))
  ]
  dequeue_loop_lem (suc n) weak (x ∷ xs) (suc t) h g = elim (Bool-cases (head_fails weak)) [
    | inl w ↦
        rw (ne→== (suc t) 0 (λ e. absurd (omega (arith, e))), w)
          (dequeue_loop_lem n (tail weak) (x ∷ xs) (suc t) h
            (omega (arith, g, tail-spurious weak w)))
    | inr w ↦
        rw (ne→== (suc t) 0 (λ e. absurd (omega (arith, e))), w)
          (t, ap (λ t'. (some x, laid xs t')) (omega arith), omega arith)
  ]

  -- On a queue that holds a list, its tail anywhere on it, `dequeue` takes the oldest item, or
  -- reports that there is none, if the compare-exchange on `head_` does not fail spuriously and
  -- fewer than 999 others do.
  pub dequeue_oldest :
      (weak : List Bool) (xs : List A) (t : ℕ)
      → t ≤ length xs
      → spurious weak < 999
      → Dequeued xs (dequeue weak false (laid xs t))
  unfolding dequeue
  dequeue_oldest weak xs t h g = dequeue_loop_lem max_attempts weak xs t h (omega arith)

  size_loop_lem : (xs : List A) → size_loop (map some xs) ≡ length xs
  unfolding size_loop
  size_loop_lem [] = refl
  size_loop_lem (x ∷ xs) = ap suc (size_loop_lem xs)

  -- `size` counts the items, `empty` answers whether there are none, and `front` is the oldest.
  pub queue_reads :
      (xs : List A) (t : ℕ)
      → t ≤ length xs
      → (size (laid xs t) ≡ length xs)
        × (empty (laid xs t) ≡ is_nil xs)
        × (front (laid xs t) ≡ head? xs)
  unfolding size empty front size_loop
  queue_reads [] zero h = (refl, refl, refl)
  queue_reads [] (suc t) h = absurd (omega arith)
  queue_reads (x ∷ xs) t h = (size_loop_lem (x ∷ xs), ground arith, refl)

  -- On a queue that holds a list, its tail anywhere on it: `enqueue` links the item behind the
  -- others, if the failing compare-exchanges and the nodes behind the tail are fewer than 1000
  -- together; `dequeue` takes the oldest item, or reports that there is none, if the compare-exchange
  -- on `head_` does not fail spuriously and fewer than 999 others do.
  pub queue_refined :
      (weak : List Bool) (x : A) (xs : List A) (t : ℕ)
      → t ≤ length xs
      → spurious weak + (length xs - t) < 1000
      → spurious weak < 999
      → Enqueued x xs (enqueue weak x (laid xs t)) × Dequeued xs (dequeue weak false (laid xs t))
  queue_refined weak x xs t h g g' = (enqueue_behind weak x xs t h g, dequeue_oldest weak xs t h g')
