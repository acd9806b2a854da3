-- ===== src/MpmcQueue.antt =====
-- include/lockfree/atomic_mpmc_queue.hpp: `AtomicMPMCQueue<T, Size>` with `Size = 2 ^ k`, run by one
-- thread at a time. `weak` lists the compare-exchanges of a call that fail spuriously, as in
-- RingBuffer. `item` is the object in a slot's storage: `none` once its destructor has run. The
-- `backoff` between attempts only waits.
pub mod Invariant
pub mod Refine
mod Examples
use cpp_lockfree_structures.Prelude.{
  ℕ, zero, suc, ◌-◌, ◌^◌, Bool, true, false, Option, none, some, List, [], ◌∷◌, ltb, leb, ◌==◌,
  if◌then◌else◌, add64, sub64, update, bit_and,
}

pub record Slot {ℓ} (A : Type ℓ) : Type ℓ where
  pub sequence : ℕ
  pub item : Option A

pub record Queue {ℓ} (A : Type ℓ) : Type ℓ where
  pub buffer : ℕ → Slot A
  pub enqueue_pos : ℕ
  pub dequeue_pos : ℕ

abbrev pub max_attempts : ℕ
max_attempts = 64

-- `pos & INDEX_MASK`, with `INDEX_MASK = Size - 1`.
pub slot_index : ℕ → ℕ → ℕ
slot_index k pos = bit_and pos (2 ^ k - 1)

module _ {ℓ} {A : Type ℓ} where
  -- The constructor: slot `i` waits for position `i`. `value` is what the default constructor of
  -- `T` left in the slots.
  pub init : A → Queue A
  init value = record {
    buffer = λ i. record { sequence = i; item = some value };
    enqueue_pos = 0;
    dequeue_pos = 0;
  }

  module _ (k : ℕ) where
    -- The writes of `enqueue_impl` at a claimed position.
    pub publish : A → ℕ → Queue A → Queue A
    publish x pos q = record q {
      buffer =
          update q.buffer (slot_index k pos) (record { sequence = add64 pos 1; item = some x });
      enqueue_pos = add64 pos 1;
    }

    -- The loop of `enqueue_impl`, with the attempts that are left.
    pub enqueue_loop : ℕ → List Bool → A → ℕ → Queue A → Bool × Queue A
    enqueue_loop zero weak x pos q = (false, q)
    enqueue_loop (suc n) [] x pos q =
        let reload = enqueue_loop n [] x q.enqueue_pos q in
        let seq = (q.buffer (slot_index k pos)).sequence in
        if seq == pos
        then (if q.enqueue_pos == pos then (true, publish x pos q) else reload)
        else if ltb seq pos
        then (false, q)
        else reload
    enqueue_loop (suc n) (fails ∷ weak) x pos q =
        let retry = enqueue_loop n weak x q.enqueue_pos q in
        let reload = enqueue_loop n (fails ∷ weak) x q.enqueue_pos q in
        let seq = (q.buffer (slot_index k pos)).sequence in
        if seq == pos
        then (if fails
            then retry
            else if q.enqueue_pos == pos
            then (true, publish x pos q)
            else retry)
        else if ltb seq pos
        then (false, q)
        else reload

    -- `enqueue_impl`, which both `enqueue` and `emplace` call.
    pub enqueue : List Bool → A → Queue A → Bool × Queue A
    enqueue weak x q = enqueue_loop max_attempts weak x q.enqueue_pos q

    -- The writes of `dequeue` at a claimed position.
    pub consume : ℕ → Queue A → Queue A
    consume pos q = record q {
      buffer =
          update q.buffer (slot_index k pos) (record { sequence = add64 pos (2 ^ k); item = none });
      dequeue_pos = add64 pos 1;
    }

    -- The loop of `dequeue`.
    pub dequeue_loop : ℕ → List Bool → ℕ → Queue A → Option A × Queue A
    dequeue_loop zero weak pos q = (none, q)
    dequeue_loop (suc n) [] pos q =
        let reload = dequeue_loop n [] q.dequeue_pos q in
        let c = q.buffer (slot_index k pos) in
        if c.sequence == add64 pos 1
        then (if q.dequeue_pos == pos then (c.item, consume pos q) else reload)
        else if ltb c.sequence (add64 pos 1)
        then (none, q)
        else reload
    dequeue_loop (suc n) (fails ∷ weak) pos q =
        let retry = dequeue_loop n weak q.dequeue_pos q in
        let reload = dequeue_loop n (fails ∷ weak) q.dequeue_pos q in
        let c = q.buffer (slot_index k pos) in
        if c.sequence == add64 pos 1
        then (if fails
            then retry
            else if q.dequeue_pos == pos
            then (c.item, consume pos q)
            else retry)
        else if ltb c.sequence (add64 pos 1)
        then (none, q)
        else reload

    -- `dequeue`: the element, or `none` where the call returns false.
    pub dequeue : List Bool → Queue A → Option A × Queue A
    dequeue weak q = dequeue_loop max_attempts weak q.dequeue_pos q

    pub front : Queue A → Option A
    front q =
        let c = q.buffer (slot_index k q.dequeue_pos) in
        if c.sequence == add64 q.dequeue_pos 1 then c.item else none

    pub full : Queue A → Bool
    full q = leb (2 ^ k) (sub64 q.enqueue_pos q.dequeue_pos)

  pub empty : Queue A → Bool
  empty q = q.enqueue_pos == q.dequeue_pos

  pub size : Queue A → ℕ
  size q = sub64 q.enqueue_pos q.dequeue_pos
