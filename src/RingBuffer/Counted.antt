-- ===== src/RingBuffer/Counted.antt =====
-- `push` and `pop` implement a bounded FIFO, as long as `size_` counts the elements.
use cpp_lockfree_structures.Prelude.{
  ℕ, zero, suc, ◌+◌, ◌-◌, ◌%◌, ◌^◌, ◌≤◌, ◌<◌, Bool, true, false, none, some, List, [], ◌∷◌, ◌++◌,
  ltb, leb, if◌then◌else◌, sub64, arith, ◌≡◌, refl, sym, length, length-append, get_last?-snoc,
  head?, get_last?, is_nil, is_nil_lem, snoc_view, lt→ltb, ge→ltb, inl, inr, pow-pos, ◌&&◌,
}
use cpp_lockfree_structures.Circular.{Holds-last}
use native.Mathlib.Decide.{dec_lt}
use cpp_lockfree_structures.BoundedQueue
use cpp_lockfree_structures.BoundedQueue.{failures}
use cpp_lockfree_structures.RingBuffer.{
  RingBuffer, empty_slot, slot_index, publish, push_loop, push, consume, pop_loop, pop, front, back,
  full, empty, size,
}
use cpp_lockfree_structures.RingBuffer.Invariant.{
  slot_index-eq, Full, Free, Represents, publish-Represents, consume-Represents, front_slot,
  next_slot, empty_front_slot, distance,
}

module _ {ℓ} {A : Type ℓ} where
  pub record Counted (k : ℕ) (r : RingBuffer A) (xs : List A) : Type ℓ where
    pub shape : Represents k r xs
    pub counted : r.count ≡ length xs

  module _ {k : ℕ} {r : RingBuffer A} {xs : List A} where
    push_loop_room :
        (n : ℕ) (weak : List Bool) (x : A)
        → Represents k r xs
        → length xs < 2 ^ k
        → r.head + 1 < 2 ^ 64
        → push_loop k n weak x r
          ≡ (if ltb (failures weak) n then (true, publish k x r) else (false, r))
    unfolding push_loop
    push_loop_room zero weak x v room fits = ground arith
    push_loop_room (suc n) [] x v room fits = ground (arith, distance v fits, next_slot v room)
    push_loop_room (suc n) (true ∷ weak) x v room fits =
        ground (arith, distance v fits, next_slot v room, push_loop_room n weak x v room fits)
    push_loop_room (suc n) (false ∷ weak) x v room fits =
        ground (arith, distance v fits, next_slot v room)

    -- Exactly what `push` does on each branch: an element goes in if there is room and fewer than 1000 compare-exchanges fail, and else nothing changes.
    pub push_lem :
        (weak : List Bool) (x : A)
        → Counted k r xs
        → r.head + 1 < 2 ^ 64
        → push k weak x r ≡ (
            if ltb (length xs) (2 ^ k) && ltb (failures weak) 1000
            then (true, publish k x r)
            else (false, r))
    unfolding push
    push_lem weak x c fits = elim (dec_lt (length xs) (2 ^ k)) [
      | yes room ↦ ground (arith, push_loop_room 1000 weak x c.shape room fits)
      | no full ↦ ground arith
    ]

    -- On a buffer that represents a list and whose counter is its length, `push` is the push of
    -- the bounded queue, in its answer and in the list it leaves, if fewer than 1000 compare-
    -- exchanges fail before one succeeds and the next position is below 2^64.
    pub push_refines :
        (weak : List Bool) (x : A)
        → Counted k r xs
        → failures weak < 1000
        → r.head + 1 < 2 ^ 64
        → let (done, r') = push k weak x r in
          let (expected, xs') = BoundedQueue.push (2 ^ k) x xs in
          (done ≡ expected) × Counted k r' xs'
    unfolding publish
    push_refines weak x c few fits = elim (dec_lt (length xs) (2 ^ k)) [
      | yes room ↦
          rw
            (
              push_lem weak x c fits,
              lt→ltb (length xs) (2 ^ k) room,
              lt→ltb (failures weak) 1000 few,
            )
            (
              refl,
              record {
                shape = publish-Represents x c.shape room fits;
                counted = omega (arith, c.counted, length-append xs (x ∷ []), c.shape.span);
              },
            )
      | no full ↦ rw (push_lem weak x c fits, ge→ltb (length xs) (2 ^ k) (omega arith)) (refl, c)
    ]

  module _ {k : ℕ} {r : RingBuffer A} where
    pop_loop_found :
        (n : ℕ) (weak : List Bool) {x : A} {xs : List A}
        → Represents k r (x ∷ xs)
        → pop_loop k n weak r ≡ (if ltb (failures weak) n then (some x, consume k r) else (none, r))
    unfolding pop_loop
    pop_loop_found zero weak v = ground arith
    pop_loop_found (suc n) [] v = ground (arith, front_slot v)
    pop_loop_found (suc n) (true ∷ weak) v = ground (arith, front_slot v, pop_loop_found n weak v)
    pop_loop_found (suc n) (false ∷ weak) v = ground (arith, front_slot v)

    pop_nil : (weak : List Bool) → Counted k r [] → pop k weak r ≡ (none, r)
    unfolding pop
    pop_nil weak c = ground (arith, c.counted)

    pop_cons :
        (weak : List Bool) (x : A) (xs : List A)
        → Counted k r (x ∷ xs)
        → failures weak < 1000
        → pop k weak r ≡ (some x, consume k r)
    unfolding pop
    pop_cons weak x xs c few = ground (arith, pop_loop_found 1000 weak c.shape)

    -- On a buffer that represents a list and whose counter is its length, with positions below
    -- 2^64, `pop` is the pop of the bounded queue, in what it returns and in the list it
    -- leaves, if fewer than 1000 compare-exchanges fail before one succeeds.
    pub pop_refines :
        (weak : List Bool) (xs : List A)
        → Counted k r xs
        → failures weak < 1000
        → r.head < 2 ^ 64
        → let (out, r') = pop k weak r in
          let (expected, xs') = BoundedQueue.pop xs in (out ≡ expected) × Counted k r' xs'
    unfolding consume
    pop_refines weak [] c few fits = rw (pop_nil weak c) (refl, c)
    pop_refines weak (x ∷ xs) c few fits = rw (pop_cons weak x xs c few) (
      refl,
      record {
        shape = consume-Represents c.shape (omega (arith, c.shape.span));
        counted = omega (arith, c.counted, c.shape.span);
      },
    )

    -- On a buffer that represents a list and whose counter is its length, when 1000 compare-
    -- exchanges fail, `pop` reports an empty buffer whatever it holds, and leaves the buffer as
    -- it is.
    pub pop_starved :
        (weak : List Bool) (xs : List A)
        → Counted k r xs
        → 1000 ≤ failures weak
        → pop k weak r ≡ (none, r)
    unfolding pop
    pop_starved weak [] c many = ground (arith, c.counted)
    pop_starved weak (x ∷ xs) c many = ground (arith, pop_loop_found 1000 weak c.shape)

    front-eq-head? : (xs : List A) → Represents k r xs → front k r ≡ head? xs
    unfolding front
    front-eq-head? [] v = ground (arith, empty_front_slot v)
    front-eq-head? (x ∷ xs) v = ground (arith, front_slot v)

    slot_before_tail :
        0 < r.tail → Represents k r [] → r.buffer (slot_index k (r.tail - 1)) ≡ empty_slot
    slot_before_tail pos v =
        rw (slot_index-eq k (r.tail - 1), sym round)
          (v.window.free (r.tail - 1 + 2 ^ k) (omega (arith, pow-pos k)) (omega arith))
      where
        round : (r.tail - 1 + 2 ^ k) % 2 ^ k ≡ (r.tail - 1) % 2 ^ k
        round = grind arith

    last_slot :
        (xs : List A) (x : A)
        → Represents k r (xs ++ x ∷ [])
        → r.buffer (slot_index k (r.head - 1)) ≡ record { item = some x; valid = true }
    last_slot xs x v = rw (slot_index-eq k (r.head - 1)) (
        Holds-last (2 ^ k) Full Free r.buffer r.tail (r.head - 1) x xs
          (omega (arith, v.span, length-append xs (x ∷ []))) v.window.holds)

    back_of_nil : Represents k r [] → r.head < 2 ^ 64 → back k r ≡ none
    unfolding back
    back_of_nil v fits = elim (dec_lt 0 r.head) [
      | yes pos ↦
          let e : sub64 r.head 1 ≡ r.tail - 1 = omega (arith, v.span) in
          rw (e, back) (ground (arith, slot_before_tail (omega (arith, v.span)) v))
      | no z ↦ ground arith
    ]

    back_of_snoc :
        (xs : List A) (x : A) → Represents k r (xs ++ x ∷ []) → r.head < 2 ^ 64 → back k r ≡ some x
    unfolding back
    back_of_snoc xs x v fits =
        let e : sub64 r.head 1 ≡ r.head - 1 = omega (arith, v.span, length-append xs (x ∷ [])) in
        rw (e, back) (ground (arith, last_slot xs x v, v.span, length-append xs (x ∷ [])))

    back-eq-get_last? :
        (xs : List A) → Represents k r xs → r.head < 2 ^ 64 → back k r ≡ get_last? xs
    back-eq-get_last? xs v fits = elim (snoc_view xs) [
      | inl e ↦ rw e (back_of_nil (rw e at v) fits)
      | inr (ys, y, e) ↦ rw (e, get_last?-snoc) (back_of_snoc ys y (rw e at v) fits)
    ]

    -- On a buffer that represents a list and whose counter is its length, with positions below
    -- 2^64, the const operations read off the list: its oldest and newest element, whether it
    -- is empty or full, and its length.
    pub buffer_observers :
        (xs : List A)
        → Counted k r xs
        → r.head < 2 ^ 64
        → (front k r ≡ head? xs)
          × (back k r ≡ get_last? xs)
          × (empty r ≡ is_nil xs)
          × (full k r ≡ leb (2 ^ k) (length xs))
          × (size r ≡ length xs)
    unfolding empty full size
    buffer_observers xs c fits = (
      front-eq-head? xs c.shape,
      back-eq-get_last? xs c.shape fits,
      ground (arith, is_nil_lem xs, c.counted),
      ground (arith, c.counted),
      c.counted,
    )

  -- On a buffer that represents a list and whose counter is its length, if fewer than 1000
  -- compare-exchanges fail before one succeeds and the next position is below 2^64: `push` is
  -- the push of the bounded queue, in its answer and in the list it leaves, and `pop` is its pop.
  pub buffer_refined :
      {k : ℕ} {r : RingBuffer A} (weak : List Bool) (x : A) (xs : List A)
      → Counted k r xs
      → failures weak < 1000
      → r.head + 1 < 2 ^ 64
      → (let (done, r') = push k weak x r in
          let (expected, xs') = BoundedQueue.push (2 ^ k) x xs in
          (done ≡ expected) × Counted k r' xs')
        × (let (out, r') = pop k weak r in
            let (expected, xs') = BoundedQueue.pop xs in (out ≡ expected) × Counted k r' xs')
  buffer_refined weak x xs c few fits =
      (push_refines weak x c few fits, pop_refines weak xs c few (omega arith))
