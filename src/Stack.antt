-- ===== src/Stack.antt =====
-- include/lockfree/atomic_stack.hpp: `AtomicStack<T>`, on an explicit heap, each operation run without
-- interference; `Race` runs any number of threads one shared access at a time. An address is a
-- number below 2^48, 0 is `nullptr`, and `heap` maps an address to the node allocated there. `new` may
-- return any address that is free, so it is an argument of `push`. An outer `none` is a
-- dereference of a pointer to no node.
pub mod Packed
pub mod Layout
pub mod Refine
pub mod Walk
pub mod Race
mod Examples
use cpp_lockfree_structures.Prelude.{
  ℕ, zero, suc, ◌+◌, ◌*◌, ◌/◌, ◌%◌, ◌^◌, Bool, true, false, Option, none, some, List, [], ◌∷◌, ◌==◌,
  if◌then◌else◌, update,
}

pub record Node {ℓ} (A : Type ℓ) : Type ℓ where
  pub item : A
  pub next : ℕ

abbrev pub Heap {ℓ} : Type ℓ → Type ℓ
Heap A = ℕ → Option (Node A)

-- `PackedPtr(p, c)`: 16 bits of counter above 48 bits of pointer.
unfoldable pub pack : ℕ → ℕ → ℕ
pack p c = p % 2 ^ 48 + c % 2 ^ 16 * 2 ^ 48

unfoldable pub get_ptr : ℕ → ℕ
get_ptr v = v % 2 ^ 48

unfoldable pub get_counter : ℕ → ℕ
get_counter v = v / 2 ^ 48 % 2 ^ 16

pub record Stack {ℓ} (A : Type ℓ) : Type ℓ where
  pub head : ℕ
  pub heap : Heap A

-- The new head word once `p` is at the top.
abbrev pub bump : ℕ → ℕ → ℕ
bump old p = pack p (get_counter old + 1)

module _ {ℓ} {A : Type ℓ} where
  pub init : Heap A → Stack A
  init h = record { head = 0; heap = h }

  -- The store to `new_node->next` in each round of `push`.
  pub link : A → ℕ → Stack A → Stack A
  link x a s = record s {
    heap = update s.heap a (some (record { item = x; next = get_ptr s.head }));
  }

  -- The loop of `push`: `weak` lists the rounds whose `compare_exchange_weak` fails spuriously.
  pub push_loop : List Bool → A → ℕ → Stack A → Stack A
  push_loop [] x a s = record (link x a s) { head = bump s.head a }
  push_loop (true ∷ weak) x a s = push_loop weak x a (link x a s)
  push_loop (false ∷ weak) x a s = record (link x a s) { head = bump s.head a }

  -- `push(const T&)`, `push(T&&)` and `emplace`, with the new node at `a`.
  pub push : List Bool → A → ℕ → Stack A → Stack A
  push weak x a s =
      push_loop weak x a
        (record s { heap = update s.heap a (some (record { item = x; next = 0 })) })

  -- `pop`: without interference its first `compare_exchange_strong` succeeds.
  pub pop : Stack A → Option (Option A × Stack A)
  pop s = if get_ptr s.head == 0 then some (none, s) else elim (s.heap (get_ptr s.head)) [
    | none ↦ none
    | some n ↦ some (
      some n.item,
      record { head = bump s.head n.next; heap = update s.heap (get_ptr s.head) none },
    )
  ]

  pub empty : Stack A → Bool
  empty s = s.head == 0

  pub top : Stack A → Option (Option A)
  top s =
      if get_ptr s.head == 0
      then some none
      else elim (s.heap (get_ptr s.head)) [ none ↦ none | some n ↦ some (some n.item) ]

  -- The loop of `size`, with fuel.
  pub size_loop : ℕ → Heap A → ℕ → ℕ → Option ℕ
  size_loop zero h p count = none
  size_loop (suc fuel) h p count =
      if p == 0
      then some count
      else elim (h p) [ none ↦ none | some n ↦ size_loop fuel h n.next (suc count) ]

  pub size : ℕ → Stack A → Option ℕ
  size fuel s = size_loop fuel s.heap (get_ptr s.head) 0

  -- The loop of the destructor, with fuel: the heap that is left.
  pub destroy_loop : ℕ → Heap A → ℕ → Option (Heap A)
  destroy_loop zero h p = none
  destroy_loop (suc fuel) h p =
      if p == 0
      then some h
      else elim (h p) [ none ↦ none | some n ↦ destroy_loop fuel (update h p none) n.next ]

  pub destroy : ℕ → Stack A → Option (Heap A)
  destroy fuel s = destroy_loop fuel s.heap (get_ptr s.head)
