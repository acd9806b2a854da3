-- ===== src/MpmcQueue/Refine.antt =====
-- `enqueue` and `dequeue` of atomic_mpmc_queue.hpp implement a bounded FIFO.
use cpp_lockfree_structures.Prelude.{
  ℕ, zero, suc, ◌+◌, ◌^◌, ◌≤◌, ◌<◌, Bool, true, false, some, none, List, [], ◌∷◌, arith, ◌≡◌, refl,
  length, pow-pos, ltb, leb, ◌&&◌, if◌then◌else◌, lt→ltb, ge→ltb, head?, is_nil,
}
use native.Mathlib.Decide.{dec_lt}
use cpp_lockfree_structures.BoundedQueue
use cpp_lockfree_structures.BoundedQueue.{failures}
use cpp_lockfree_structures.MpmcQueue.{
  Queue, publish, consume, enqueue_loop, enqueue, dequeue_loop, dequeue, front, full, empty, size,
}
use cpp_lockfree_structures.MpmcQueue.Invariant.{
  Represents, publish-Represents, consume-Represents, front_slot, next_slot, empty_front_slot,
  wrapped_slot,
}

module _ {ℓ} {A : Type ℓ} {k : ℕ} {q : Queue A} where
  enqueue_loop_room :
      (n : ℕ) (weak : List Bool) (x : A) {xs : List A}
      → Represents k q xs
      → length xs < 2 ^ k
      → enqueue_loop k n weak x q.enqueue_pos q
        ≡ (if ltb (failures weak) n then (true, publish k x q.enqueue_pos q) else (false, q))
  unfolding enqueue_loop
  enqueue_loop_room zero weak x v room = ground arith
  enqueue_loop_room (suc n) [] x v room = ground (arith, next_slot v room)
  enqueue_loop_room (suc n) (true ∷ weak) x v room =
      ground (arith, next_slot v room, enqueue_loop_room n weak x v room)
  enqueue_loop_room (suc n) (false ∷ weak) x v room = ground (arith, next_slot v room)

  enqueue_loop_full :
      (n : ℕ) (weak : List Bool) (x y : A) (ys : List A)
      → Represents k q (y ∷ ys)
      → suc (length ys) ≡ 2 ^ k
      → 1 < 2 ^ k
      → enqueue_loop k n weak x q.enqueue_pos q ≡ (false, q)
  unfolding enqueue_loop
  enqueue_loop_full zero weak x y ys v e two = refl
  enqueue_loop_full (suc n) [] x y ys v e two = ground (arith, wrapped_slot y ys v e, v.span)
  enqueue_loop_full (suc n) (fails ∷ weak) x y ys v e two =
      ground (arith, wrapped_slot y ys v e, v.span)

  enqueue_full :
      (weak : List Bool) (x : A) (xs : List A)
      → Represents k q xs
      → 2 ^ k ≤ length xs
      → 1 < 2 ^ k
      → enqueue k weak x q ≡ (false, q)
  unfolding enqueue
  enqueue_full weak x [] v full two = absurd (omega arith)
  enqueue_full weak x (y ∷ ys) v full two =
      enqueue_loop_full 64 weak x y ys v (omega (arith, v.window.fits)) two

  -- Exactly what `enqueue` does on each branch: the element goes in if there is room and fewer than
  -- 64 compare-exchanges fail, and else nothing changes. `Size` is a power of two greater than 1.
  pub enqueue_lem :
      (weak : List Bool) (x : A) (xs : List A)
      → Represents k q xs
      → 1 < 2 ^ k
      → enqueue k weak x q ≡ (
          if ltb (length xs) (2 ^ k) && ltb (failures weak) 64
          then (true, publish k x q.enqueue_pos q)
          else (false, q))
  enqueue_lem weak x xs v two = elim (dec_lt (length xs) (2 ^ k)) [
    | yes room ↦
        rw (lt→ltb (length xs) (2 ^ k) room) (unfold enqueue in enqueue_loop_room 64 weak x v room)
    | no full ↦
        rw (ge→ltb (length xs) (2 ^ k) (omega arith)) (enqueue_full weak x xs v (omega arith) two)
  ]

  -- On a queue that represents a list, with at least two slots, `enqueue` is the push of the
  -- bounded queue, in its answer and in the list it leaves, if fewer than 64 compare-exchanges
  -- fail before one succeeds and the position after the new one is below 2^64.
  pub enqueue_refines :
      (weak : List Bool) (x : A) (xs : List A)
      → Represents k q xs
      → 1 < 2 ^ k
      → failures weak < 64
      → q.enqueue_pos + 1 < 2 ^ 64
      → let (done, q') = enqueue k weak x q in
        let (expected, xs') = BoundedQueue.push (2 ^ k) x xs in
        (done ≡ expected) × Represents k q' xs'
  enqueue_refines weak x xs v two few fits = elim (dec_lt (length xs) (2 ^ k)) [
    | yes room ↦
        rw
          (
            enqueue_lem weak x xs v two,
            lt→ltb (length xs) (2 ^ k) room,
            lt→ltb (failures weak) 64 few,
          )
          (refl, publish-Represents x v room fits)
    | no full ↦ rw (enqueue_lem weak x xs v two, ge→ltb (length xs) (2 ^ k) (omega arith)) (refl, v)
  ]

  dequeue_loop_nil :
      (n : ℕ) (weak : List Bool)
      → Represents k q []
      → q.dequeue_pos + 1 < 2 ^ 64
      → dequeue_loop k n weak q.dequeue_pos q ≡ (none, q)
  unfolding dequeue_loop
  dequeue_loop_nil zero weak v fits = refl
  dequeue_loop_nil (suc n) [] v fits = ground (arith, empty_front_slot v)
  dequeue_loop_nil (suc n) (fails ∷ weak) v fits = ground (arith, empty_front_slot v)

  dequeue_loop_cons :
      (n : ℕ) (weak : List Bool) {x : A} {xs : List A}
      → Represents k q (x ∷ xs)
      → q.dequeue_pos + 1 < 2 ^ 64
      → dequeue_loop k n weak q.dequeue_pos q
        ≡ (if ltb (failures weak) n then (some x, consume k q.dequeue_pos q) else (none, q))
  unfolding dequeue_loop
  dequeue_loop_cons zero weak v fits = ground arith
  dequeue_loop_cons (suc n) [] v fits = ground (arith, front_slot v)
  dequeue_loop_cons (suc n) (true ∷ weak) v fits =
      ground (arith, front_slot v, dequeue_loop_cons n weak v fits)
  dequeue_loop_cons (suc n) (false ∷ weak) v fits = ground (arith, front_slot v)

  -- On a queue that represents a list, `dequeue` is the pop of the bounded queue, in what it
  -- returns and in the list it leaves, if fewer than 64 compare-exchanges fail before one
  -- succeeds and the position one round on is below 2^64.
  pub dequeue_refines :
      (weak : List Bool) (xs : List A)
      → Represents k q xs
      → failures weak < 64
      → q.dequeue_pos + 2 ^ k < 2 ^ 64
      → let (out, q') = dequeue k weak q in
        let (expected, xs') = BoundedQueue.pop xs in (out ≡ expected) × Represents k q' xs'
  unfolding dequeue
  dequeue_refines weak [] v few fits =
      rw (dequeue_loop_nil 64 weak v (omega (arith, pow-pos k))) (refl, v)
  dequeue_refines weak (x ∷ xs) v few fits =
      rw (dequeue_loop_cons 64 weak v (omega (arith, pow-pos k)), lt→ltb (failures weak) 64 few)
        (refl, consume-Represents v fits)

  -- On a queue that represents a list, with positions below 2^64, the const operations read off
  -- the list: its oldest element, whether it is empty or full, and its length.
  pub queue_observers :
      (xs : List A)
      → Represents k q xs
      → q.enqueue_pos + 1 < 2 ^ 64
      → (front k q ≡ head? xs)
        × (empty q ≡ is_nil xs)
        × (full k q ≡ leb (2 ^ k) (length xs))
        × (size q ≡ length xs)
  unfolding front empty full size
  queue_observers [] v fits = (
    ground (arith, empty_front_slot v, v.span),
    ground (arith, v.span),
    ground (arith, v.span),
    omega (arith, v.span),
  )
  queue_observers (x ∷ xs) v fits = (
    ground (arith, front_slot v, v.span),
    ground (arith, v.span),
    ground (arith, v.span),
    omega (arith, v.span),
  )

  -- On a queue that represents a list, with at least two slots, if fewer than 64 compare-exchanges
  -- fail before one succeeds and the positions after the new one and one round on are below
  -- 2^64: `enqueue` is the push of the bounded queue, in its answer and in the list it leaves,
  -- and `dequeue` is its pop.
  pub fifo_refined :
      (weak : List Bool) (x : A) (xs : List A)
      → Represents k q xs
      → 1 < 2 ^ k
      → failures weak < 64
      → q.enqueue_pos + 1 < 2 ^ 64
      → q.dequeue_pos + 2 ^ k < 2 ^ 64
      → (let (done, q') = enqueue k weak x q in
          let (expected, xs') = BoundedQueue.push (2 ^ k) x xs in
          (done ≡ expected) × Represents k q' xs')
        × (let (out, q') = dequeue k weak q in
            let (expected, xs') = BoundedQueue.pop xs in (out ≡ expected) × Represents k q' xs')
  fifo_refined weak x xs v two few fits fits' =
      (enqueue_refines weak x xs v two few fits, dequeue_refines weak xs v few fits')
