-- ===== src/RingBuffer.antt =====
-- include/lockfree/atomic_ringbuffer.hpp: `AtomicRingBuffer<T, Size>` with `Size = 2 ^ k`, run by one
-- thread at a time. A pointer to a heap-allocated element is an `Option`: `none` is `nullptr`, and
-- `some x` owns `x`. `compare_exchange_weak` may fail although the values agree: `weak` lists, for each
-- compare-exchange of a call in turn, whether it fails in that way (`true`), and once the list is
-- used up none does.
pub mod Invariant
pub mod Counted
pub mod Spsc
mod Examples
use cpp_lockfree_structures.Prelude.{
  ℕ, zero, suc, ◌+◌, ◌-◌, ◌^◌, Bool, true, false, Option, none, some, List, [], ◌∷◌, ltb, leb, ◌==◌,
  if◌then◌else◌, add64, sub64, update, bit_and,
}

pub record Slot {ℓ} (A : Type ℓ) : Type ℓ where
  pub item : Option A
  pub valid : Bool

pub record RingBuffer {ℓ} (A : Type ℓ) : Type ℓ where
  pub buffer : ℕ → Slot A
  pub head : ℕ
  pub tail : ℕ
  pub count : ℕ

-- The bound on the retries of `push_impl` and `pop_impl`.
abbrev pub max_attempts : ℕ
max_attempts = 1000

-- `pos & INDEX_MASK`, with `INDEX_MASK = Size - 1`.
pub slot_index : ℕ → ℕ → ℕ
slot_index k pos = bit_and pos (2 ^ k - 1)

module _ {ℓ} {A : Type ℓ} where
  abbrev pub empty_slot : Slot A
  empty_slot = record { item = none; valid = false }

  -- The constructor writes every slot of the array; here every index holds an empty slot.
  pub init : RingBuffer A
  init = record { buffer = λ i. empty_slot; head = 0; tail = 0; count = 0 }

  module _ (k : ℕ) where
    -- The writes of `push_impl` once its compare-exchange on `head_` has succeeded.
    pub publish : A → RingBuffer A → RingBuffer A
    publish x r = record r {
      buffer = update r.buffer (slot_index k r.head) (record { item = some x; valid = true });
      head = add64 r.head 1;
      count = add64 r.count 1;
    }

    -- The loop of `push_impl`, with the attempts that are left.
    pub push_loop : ℕ → List Bool → A → RingBuffer A → Bool × RingBuffer A
    push_loop zero weak x r = (false, r)
    push_loop (suc n) [] x r =
        let again = push_loop n [] x r in
        if ltb (2 ^ k) (sub64 (add64 r.head 1) r.tail)
        then (false, r)
        else if (r.buffer (slot_index k r.head)).valid
        then again
        else (true, publish x r)
    push_loop (suc n) (fails ∷ weak) x r =
        let again = push_loop n (fails ∷ weak) x r in
        let retry = push_loop n weak x r in
        if ltb (2 ^ k) (sub64 (add64 r.head 1) r.tail)
        then (false, r)
        else if (r.buffer (slot_index k r.head)).valid
        then again
        else if fails
        then retry
        else (true, publish x r)

    -- `push_impl`; `push(const T&)`, `push(T&&)` and `emplace` differ in how they make the element.
    pub push : List Bool → A → RingBuffer A → Bool × RingBuffer A
    push weak x r = if leb (2 ^ k) r.count then (false, r) else push_loop max_attempts weak x r

    -- The writes of `pop_impl` once its compare-exchange on `tail_` has succeeded.
    pub consume : RingBuffer A → RingBuffer A
    consume r = record r {
      buffer = update r.buffer (slot_index k r.tail) empty_slot;
      tail = add64 r.tail 1;
      count = sub64 r.count 1;
    }

    -- The loop of `pop_impl`. An `item` that is `none` is the null pointer, on which the call returns false.
    pub pop_loop : ℕ → List Bool → RingBuffer A → Option A × RingBuffer A
    pop_loop zero weak r = (none, r)
    pop_loop (suc n) [] r =
        let c = r.buffer (slot_index k r.tail) in if c.valid then (c.item, consume r) else (none, r)
    pop_loop (suc n) (fails ∷ weak) r =
        let retry = pop_loop n weak r in
        let c = r.buffer (slot_index k r.tail) in
        if c.valid then (if fails then retry else (c.item, consume r)) else (none, r)

    -- `pop`: the element, or `none` where the call returns false.
    pub pop : List Bool → RingBuffer A → Option A × RingBuffer A
    pop weak r = if r.count == 0 then (none, r) else pop_loop max_attempts weak r

    pub front : RingBuffer A → Option A
    front r = let c = r.buffer (slot_index k r.tail) in if c.valid then c.item else none

    pub back : RingBuffer A → Option A
    back r =
        if r.head == 0
        then none
        else let c = r.buffer (slot_index k (sub64 r.head 1)) in if c.valid then c.item else none

    pub full : RingBuffer A → Bool
    full r = leb (2 ^ k) r.count

    -- `spsc_push`: one store to `head_`, and no update of `size_`.
    pub spsc_push : A → RingBuffer A → Bool × RingBuffer A
    spsc_push x r = if ltb (2 ^ k) (sub64 (add64 r.head 1) r.tail) then (false, r) else (
      true,
      record r {
        buffer = update r.buffer (slot_index k r.head) (record { item = some x; valid = true });
        head = add64 r.head 1;
      },
    )

    -- `spsc_pop`: a valid slot with a null pointer would be dereferenced; `item` is `none` there.
    pub spsc_pop : RingBuffer A → Option A × RingBuffer A
    spsc_pop r =
        let c = r.buffer (slot_index k r.tail) in
        if c.valid
        then (
          c.item,
          record r {
            buffer = update r.buffer (slot_index k r.tail) empty_slot;
            tail = add64 r.tail 1;
          },
        )
        else (none, r)

  pub empty : RingBuffer A → Bool
  empty r = r.count == 0

  pub size : RingBuffer A → ℕ
  size r = r.count
