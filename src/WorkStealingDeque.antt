-- ===== src/WorkStealingDeque.antt =====
-- include/lockfree/atomic_work_stealing_deque.hpp: `AtomicWorkStealingDeque<T>`, each operation run
-- without interference. A slot is the pointer that it stores: `none` is `nullptr`, and `some x` owns
-- `x`. `Race` runs the owner and a thief one shared access at a time.
pub mod Refine
pub mod Race
mod Examples
use cpp_lockfree_structures.Prelude.{
  ℕ, zero, suc, ◌-◌, Option, none, some, Bool, true, false, ltb, leb, ◌==◌, if◌then◌else◌, add64,
  sub64, update, bit_and,
}

pub record Deque {ℓ} (A : Type ℓ) : Type ℓ where
  pub buffer : ℕ → Option A
  pub top : ℕ
  pub bottom : ℕ

-- `CAPACITY`; one slot stays unused.
abbrev pub slot_count : ℕ
slot_count = 4096

-- `pos & INDEX_MASK`.
pub slot_index : ℕ → ℕ
slot_index pos = bit_and pos 4095

-- `capacity()`.
abbrev pub capacity : ℕ
capacity = slot_count - 1

module _ {ℓ} {A : Type ℓ} where
  pub init : Deque A
  init = record { buffer = λ i. none; top = 0; bottom = 0 }

  -- `push_bottom`: an element that finds no room is deleted.
  pub push_bottom : A → Deque A → Deque A
  push_bottom x d = if leb (slot_count - 1) (sub64 d.bottom d.top) then d else record d {
    buffer = update d.buffer (slot_index d.bottom) (some x);
    bottom = add64 d.bottom 1;
  }

  -- The branch of `pop_bottom` with at least one element; `b` is `bottom_` less one. With no
  -- interference its compare-exchange on `top_` succeeds.
  pub take_bottom : ℕ → Deque A → Option A × Deque A
  take_bottom b d =
      let rest = update d.buffer (slot_index b) none in
      if d.top == b
      then (
        d.buffer (slot_index b),
        record { buffer = rest; top = add64 d.top 1; bottom = add64 b 1 },
      )
      else (d.buffer (slot_index b), record { buffer = rest; top = d.top; bottom = b })

  pub pop_bottom : Deque A → Option A × Deque A
  pop_bottom d =
      if d.bottom == 0
      then (none, d)
      else let b = d.bottom - 1 in
        if leb d.top b then take_bottom b d else (none, record d { bottom = add64 b 1 })

  -- `steal`. With no interference its compare-exchange on `top_` succeeds.
  pub steal : Deque A → Option A × Deque A
  steal d =
      if ltb d.top d.bottom
      then elim (d.buffer (slot_index d.top)) [
        | none ↦ (none, d)
        | some x ↦ (
          some x,
          record d { buffer = update d.buffer (slot_index d.top) none; top = add64 d.top 1 },
        )
      ]
      else (none, d)

  pub empty : Deque A → Bool
  empty d = leb d.bottom d.top

  pub size : Deque A → ℕ
  size d = if leb d.top d.bottom then d.bottom - d.top else 0
