-- ===== src/Queue.antt =====
-- include/lockfree/atomic_queue.hpp: `AtomicQueue<T>`, each operation run without interference. The
-- nodes behind the dummy that `head_` points at are a list, each with its data, or `none` once the
-- data pointer is null; `tail` says how many nodes behind the dummy `tail_` points. `weak` lists
-- which compare-exchanges of a call fail spuriously. The pauses between attempts only wait.
pub mod Refine
pub mod Stuck
mod Examples
use cpp_lockfree_structures.Prelude.{
  ℕ, zero, suc, ◌+◌, ◌-◌, Bool, true, false, ◌&&◌, Option, none, some, List, [], ◌∷◌, ◌++◌, length,
  is_nil, ◌==◌, if◌then◌else◌,
}
use cpp_lockfree_structures.Outcomes.{head_fails, tail}

pub record Queue {ℓ} (A : Type ℓ) : Type ℓ where
  pub nodes : List (Option A)
  pub tail_ : ℕ

abbrev pub max_attempts : ℕ
max_attempts = 1000

module _ {ℓ} {A : Type ℓ} where
  pub init : Queue A
  init = record { nodes = []; tail_ = 0 }

  -- A compare-exchange that moves `tail_` to the next node.
  pub advance_tail : Bool → Queue A → Queue A
  advance_tail fails q = if fails then q else record q { tail_ = q.tail_ + 1 }

  -- The loop of `enqueue`, with the attempts that are left; whether it linked its node.
  pub enqueue_loop : ℕ → List Bool → A → Queue A → Bool × Queue A
  enqueue_loop zero weak x q = (false, q)
  enqueue_loop (suc n) weak x q =
      let retry = enqueue_loop n (tail weak) x q in
      let advanced = enqueue_loop n (tail weak) x (advance_tail (head_fails weak) q) in
      if q.tail_ == length q.nodes
      then (if head_fails weak then retry else (
        true,
        advance_tail (head_fails (tail weak)) (record q { nodes = q.nodes ++ some x ∷ [] }),
      ))
      else advanced

  -- `enqueue(const T&)`, `enqueue(T&&)` and `emplace`.
  pub enqueue : List Bool → A → Queue A → Bool × Queue A
  enqueue = enqueue_loop max_attempts

  -- The loop of `dequeue`. `stalls` says whether the compare-exchange on `head_` fails spuriously
  -- when it is first tried; `weak` is about the others.
  pub dequeue_loop : ℕ → List Bool → Bool → Queue A → Option A × Queue A
  dequeue_loop zero weak stalls q = (none, q)
  dequeue_loop (suc n) weak stalls q =
      let advanced = dequeue_loop n (tail weak) stalls (advance_tail (head_fails weak) q) in
      let again = dequeue_loop n weak stalls q in
      let retry = dequeue_loop n (tail weak) stalls q in
      if q.tail_ == 0 then (if is_nil q.nodes then (none, q) else advanced) else elim q.nodes [
        | [] ↦ again
        | next ∷ rest ↦ elim next [
          | none ↦ again
          | some x ↦
              let taken = dequeue_loop n (tail weak) false (record q { nodes = none ∷ rest }) in
              if head_fails weak
              then retry
              else if stalls
              then taken
              else (some x, record { nodes = rest; tail_ = q.tail_ - 1 })
        ]
      ]

  pub dequeue : List Bool → Bool → Queue A → Option A × Queue A
  dequeue = dequeue_loop max_attempts

  pub empty : Queue A → Bool
  empty q = q.tail_ == 0 && is_nil q.nodes

  -- The loop of `size`: the nodes that have data.
  pub size_loop : List (Option A) → ℕ
  size_loop [] = 0
  size_loop (none ∷ rest) = size_loop rest
  size_loop (some x ∷ rest) = suc (size_loop rest)

  pub size : Queue A → ℕ
  size q = size_loop q.nodes

  pub front : Queue A → Option A
  front q = elim q.nodes [ [] ↦ none | next ∷ rest ↦ next ]
