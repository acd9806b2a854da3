-- ===== src/WorkStealingDeque/Refine.antt =====
-- The operations of atomic_work_stealing_deque.hpp implement a double-ended queue: the owner works
-- at its back, the thieves take from its front.
use cpp_lockfree_structures.Prelude.{
  ℕ, suc, ◌+◌, ◌-◌, ◌%◌, ◌^◌, ◌≤◌, ◌<◌, true, false, Option, some, none, List, [], ◌∷◌, ◌++◌, add64,
  sub64, update, arith, ◌≡◌, refl, length, length-append, leb, lt→ltb, ge→ltb, eq→==, ne→==, le→leb,
  gt→leb, is_nil, is_nil_lem, bit_and-mask,
}
use native.Mathlib.Decide.{dec_lt, ℕ_discrete}
use cpp_lockfree_structures.Circular.{Window, Window-append, Window-tail, Window-init, Holds-last}
use cpp_lockfree_structures.BoundedQueue
use cpp_lockfree_structures.WorkStealingDeque.{
  Deque, slot_index, init, push_bottom, take_bottom, pop_bottom, steal, empty, size, capacity,
}

pub slot_index-eq : (p : ℕ) → slot_index p ≡ p % 4096
unfolding slot_index
slot_index-eq p = bit_and-mask p 12

module _ {ℓ} {A : Type ℓ} where
  abbrev pub Full : ℕ → A → Option A → Type ℓ
  Full p x c = c ≡ some x

  abbrev pub Free : ℕ → Option A → Type ℓ
  Free p c = c ≡ none

  -- The deque holds `xs`, oldest first.
  pub record Represents (d : Deque A) (xs : List A) : Type ℓ where
    pub window : Window 4096 Full Free d.buffer d.top xs
    pub span : d.bottom ≡ d.top + length xs
    pub room : length xs ≤ capacity

  pub init-Represents : Represents (init {A = A}) []
  unfolding init
  init-Represents = record {
    window = record { holds = tt; fits = omega arith; free = λ i a b. refl };
    span = refl;
    room = omega arith;
  }

  -- On a deque that represents a list, with positions below 2^64, `push_bottom` puts the
  -- element at the back, and drops it if 4095 elements are there already.
  pub push_bottom_refines :
      {d : Deque A} (x : A) (xs : List A)
      → Represents d xs
      → d.bottom + 1 < 2 ^ 64
      → Represents (push_bottom x d) (BoundedQueue.push capacity x xs).1
  unfolding push_bottom
  push_bottom_refines {d} x xs v fits = elim (dec_lt (length xs) 4095) [
    | yes lt ↦
        rw (has_room lt, lt→ltb (length xs) 4095 lt)
          (record {
            window =
                Window-append 4096 Full Free (slot_index d.bottom) d.bottom x (some x) v.window
                  (slot_index-eq d.bottom) v.span (omega arith) refl;
            span = omega (arith, v.span, length-append xs (x ∷ []));
            room = omega (arith, length-append xs (x ∷ []));
          })
    | no ge ↦ rw (is_full (omega arith), ge→ltb (length xs) 4095 (omega arith)) v
  ]
    where
      has_room : length xs < 4095 → leb 4095 (sub64 d.bottom d.top) ≡ false
      has_room lt = ground (arith, v.span)

      is_full : 4095 ≤ length xs → leb 4095 (sub64 d.bottom d.top) ≡ true
      is_full ge = ground (arith, v.span)

  -- On a deque that represents a list, with positions below 2^64, `steal` takes the oldest
  -- element of the list and leaves the others, or returns the null pointer if there is none.
  pub steal_refines :
      {d : Deque A} (xs : List A)
      → Represents d xs
      → d.bottom + 1 < 2 ^ 64
      → let (out, d') = steal d in
        let (expected, xs') = BoundedQueue.pop xs in (out ≡ expected) × Represents d' xs'
  unfolding steal
  steal_refines {d} [] v fits = rw (ge→ltb d.top d.bottom (omega (arith, v.span))) (refl, v)
  steal_refines {d} (x ∷ xs) v fits =
      rw (lt→ltb d.top d.bottom (omega (arith, v.span)), slot)
        (
          refl,
          record {
            window =
                Window-tail 4096 Full Free (slot_index d.top) (add64 d.top 1) none v.window
                  (slot_index-eq d.top) (omega (arith, v.span)) refl;
            span = omega (arith, v.span);
            room = omega (arith, v.room);
          },
        )
    where
      slot : d.buffer (slot_index d.top) ≡ some x
      slot = rw (slot_index-eq d.top) v.window.holds.0

  pop_bottom_some :
      (d : Deque A) (b : ℕ) → d.bottom ≡ suc b → d.top ≤ b → pop_bottom d ≡ take_bottom b d
  unfolding pop_bottom
  pop_bottom_some d b e h =
      let before : d.bottom - 1 ≡ b = omega arith in
      rw (ne→== d.bottom 0 (omega arith), before, le→leb d.top b h)

  take_bottom_last :
      (d : Deque A) (x : A)
      → d.buffer (slot_index d.top) ≡ some x
      → take_bottom d.top d ≡ (
        some x,
        record {
          buffer = update d.buffer (slot_index d.top) none;
          top = add64 d.top 1;
          bottom = add64 d.top 1;
        },
      )
  unfolding take_bottom
  take_bottom_last d x e = rw (e, eq→== d.top d.top refl)

  take_bottom_more :
      (d : Deque A) (b : ℕ) (x : A)
      → d.buffer (slot_index b) ≡ some x
      → d.top < b
      → take_bottom b d
        ≡ (some x, record { buffer = update d.buffer (slot_index b) none; top = d.top; bottom = b })
  unfolding take_bottom
  take_bottom_more d b x e lt = rw (e, ne→== d.top b (omega arith))

  -- `pop_bottom` of an empty deque finds nothing and changes nothing.
  pub pop_bottom_nil :
      {d : Deque A} → Represents d [] → d.bottom < 2 ^ 64 → pop_bottom d ≡ (none, d)
  unfolding pop_bottom
  pop_bottom_nil {d} v fits = elim (ℕ_discrete d.bottom 0) [
    | yes e ↦ rw (eq→== d.bottom 0 e)
    | no ne ↦
        let restored : add64 (d.bottom - 1) 1 ≡ d.bottom = omega arith in
        rw (ne→== d.bottom 0 ne, gt→leb d.top (d.bottom - 1) (omega (arith, v.span)), restored)
  ]

  -- On a deque that represents a list with a newest element, with positions below 2^64,
  -- `pop_bottom` returns that element and leaves the others.
  pub pop_bottom_snoc :
      {d : Deque A} (x : A) (xs : List A)
      → Represents d (xs ++ x ∷ [])
      → d.bottom < 2 ^ 64
      → ((pop_bottom d).0 ≡ some x) × Represents (pop_bottom d).1 xs
  pop_bottom_snoc {d} x [] v fits =
      rw (pop_bottom_some d d.top (omega (arith, v.span)) (omega arith), take_bottom_last d x slot)
        (
          refl,
          record {
            window =
                Window-tail 4096 Full Free (slot_index d.top) (add64 d.top 1) none v.window
                  (slot_index-eq d.top) (omega (arith, v.span)) refl;
            span = omega arith;
            room = omega arith;
          },
        )
    where
      slot : d.buffer (slot_index d.top) ≡ some x
      slot = rw (slot_index-eq d.top) v.window.holds.0
  pop_bottom_snoc {d} x (y ∷ ys) v fits =
      rw
        (
          pop_bottom_some d b (omega (arith, v.span, many)) (omega arith),
          take_bottom_more d b x slot (omega arith),
        )
        (
          refl,
          record {
            window =
                Window-init 4096 Full Free (slot_index b) b x none v.window (slot_index-eq b) refl
                  refl;
            span = refl;
            room = omega (arith, v.room, many);
          },
        )
    where
      b : ℕ
      b = d.top + suc (length ys)

      many : length (ys ++ x ∷ []) ≡ length ys + 1
      many = length-append ys (x ∷ [])

      slot : d.buffer (slot_index b) ≡ some x
      slot =
          rw (slot_index-eq b)
            (Holds-last 4096 Full Free d.buffer d.top b x (y ∷ ys) refl v.window.holds)

  -- `empty` and `size` tell the number of elements.
  pub deque_observers :
      {d : Deque A} (xs : List A) → Represents d xs → (empty d ≡ is_nil xs) × (size d ≡ length xs)
  unfolding empty size
  deque_observers {d} xs v = (ground (arith, v.span, is_nil_lem xs), ground (arith, v.span))

  -- On a deque that represents a list, with positions below 2^64: `push_bottom` puts the element at
  -- the back, and drops it if 4095 elements are there already; `steal` takes the oldest element and
  -- leaves the others, or returns the null pointer if there is none.
  pub ends_refined :
      {d : Deque A} (x : A) (xs : List A)
      → Represents d xs
      → d.bottom + 1 < 2 ^ 64
      → Represents (push_bottom x d) (BoundedQueue.push capacity x xs).1
        × (let (out, d') = steal d in
            let (expected, xs') = BoundedQueue.pop xs in (out ≡ expected) × Represents d' xs')
  ends_refined x xs v fits = (push_bottom_refines x xs v fits, steal_refines xs v fits)
