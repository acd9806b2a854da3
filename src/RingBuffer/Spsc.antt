-- ===== src/RingBuffer/Spsc.antt =====
-- `spsc_push` and `spsc_pop` of atomic_ringbuffer.hpp: a FIFO of their own, which `size_` does not see.
use cpp_lockfree_structures.Prelude.{
  ℕ, ◌+◌, ◌^◌, ◌≤◌, ◌<◌, Bool, true, false, none, some, List, [], ◌∷◌, arith, ◌≡◌, refl, ap, length,
  pow-pos, lt→ltb, ge→ltb,
}
use native.Mathlib.Decide.{dec_lt}
use cpp_lockfree_structures.BoundedQueue
use cpp_lockfree_structures.RingBuffer.{
  RingBuffer, publish, consume, pop, spsc_push, spsc_pop, empty,
}
use cpp_lockfree_structures.RingBuffer.Invariant.{
  Represents, publish-Represents, consume-Represents, front_slot, empty_front_slot, distance,
}
use cpp_lockfree_structures.RingBuffer.Counted.{Counted}

Represents-count {ℓ} :
    {A : Type ℓ} {k : ℕ} {r : RingBuffer A} {xs : List A} (n : ℕ)
    → Represents k r xs
    → Represents k (record r { count = n }) xs
Represents-count n v = record { window = v.window; span = v.span }

module _ {ℓ} {A : Type ℓ} {k : ℕ} {r : RingBuffer A} where
  -- The writes of `push_impl` without the count.
  spsc_push_room :
      {xs : List A} (x : A)
      → Represents k r xs
      → length xs < 2 ^ k
      → r.head + 1 < 2 ^ 64
      → spsc_push k x r ≡ (true, record (publish k x r) { count = r.count })
  unfolding spsc_push publish
  spsc_push_room x v room fits = ground (arith, distance v fits)

  spsc_push_full :
      {xs : List A} (x : A)
      → Represents k r xs
      → 2 ^ k ≤ length xs
      → r.head + 1 < 2 ^ 64
      → spsc_push k x r ≡ (false, r)
  unfolding spsc_push
  spsc_push_full x v full fits = ground (arith, distance v fits)

  -- On a buffer that represents a list, if the next position is below 2^64, `spsc_push` is the
  -- push of the bounded queue on the slots, and leaves `size_` as it was.
  pub spsc_push_refines :
      (x : A) (xs : List A)
      → Represents k r xs
      → r.head + 1 < 2 ^ 64
      → let (done, r') = spsc_push k x r in
        let (expected, xs') = BoundedQueue.push (2 ^ k) x xs in
        (done ≡ expected) × Represents k r' xs' × (r'.count ≡ r.count)
  spsc_push_refines x xs v fits = elim (dec_lt (length xs) (2 ^ k)) [
    | yes room ↦
        rw (spsc_push_room x v room fits, lt→ltb (length xs) (2 ^ k) room)
          (refl, Represents-count r.count (publish-Represents x v room fits), refl)
    | no full ↦
        rw (spsc_push_full x v (omega arith) fits, ge→ltb (length xs) (2 ^ k) (omega arith))
          (refl, v, refl)
  ]

  spsc_pop_cons :
      {x : A} {xs : List A}
      → Represents k r (x ∷ xs)
      → spsc_pop k r ≡ (some x, record (consume k r) { count = r.count })
  unfolding spsc_pop consume
  spsc_pop_cons v = ground (arith, front_slot v)

  spsc_pop_nil : Represents k r [] → spsc_pop k r ≡ (none, r)
  unfolding spsc_pop
  spsc_pop_nil v = ground (arith, empty_front_slot v)

  -- On a buffer that represents a list, with positions below 2^64, `spsc_pop` is the pop of the
  -- bounded queue on the slots, and leaves `size_` as it was.
  pub spsc_pop_refines :
      (xs : List A)
      → Represents k r xs
      → r.head < 2 ^ 64
      → let (out, r') = spsc_pop k r in
        let (expected, xs') = BoundedQueue.pop xs in
        (out ≡ expected) × Represents k r' xs' × (r'.count ≡ r.count)
  spsc_pop_refines [] v fits = rw (spsc_pop_nil v) (refl, v, refl)
  spsc_pop_refines (x ∷ xs) v fits =
      rw (spsc_pop_cons v)
        (refl, Represents-count r.count (consume-Represents v (omega (arith, v.span))), refl)

  -- On a buffer that represents a list, if the next position is below 2^64: `spsc_push` is the
  -- push of the bounded queue on the slots, `spsc_pop` is its pop, and both leave `size_` as it was.
  pub spsc_refined :
      (x : A) (xs : List A)
      → Represents k r xs
      → r.head + 1 < 2 ^ 64
      → (let (done, r') = spsc_push k x r in
          let (expected, xs') = BoundedQueue.push (2 ^ k) x xs in
          (done ≡ expected) × Represents k r' xs' × (r'.count ≡ r.count))
        × (let (out, r') = spsc_pop k r in
            let (expected, xs') = BoundedQueue.pop xs in
            (out ≡ expected) × Represents k r' xs' × (r'.count ≡ r.count))
  spsc_refined x xs v fits = (spsc_push_refines x xs v fits, spsc_pop_refines xs v (omega arith))

-- If the buffer is empty, its counter is 0 and the next position is below 2^64, what
-- `spsc_push` stores is there for `spsc_pop`, but `empty` still says that the buffer is empty,
-- and `pop` finds nothing.
pub spsc_push_uncounted {ℓ} :
    {A : Type ℓ} {k : ℕ} {r : RingBuffer A} (x : A) (weak : List Bool)
    → Counted k r []
    → r.head + 1 < 2 ^ 64
    → let r' = (spsc_push k x r).1 in
      ((spsc_push k x r).0 ≡ true)
      × ((spsc_pop k r').0 ≡ some x)
      × (empty r' ≡ true)
      × (pop k weak r' ≡ (none, r'))
unfolding empty pop
spsc_push_uncounted {k} {r} x weak c fits = rw (spsc_push_room x c.shape (pow-pos k) fits) (
  refl,
  ap (λ p. p.0)
      (spsc_pop_cons (Represents-count r.count (publish-Represents x c.shape (pow-pos k) fits))),
  ground (arith, c.counted),
  ground (arith, c.counted),
)
