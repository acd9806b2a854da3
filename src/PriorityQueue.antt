-- ===== src/PriorityQueue.antt =====
-- include/lockfree/atomic_priority_queue.hpp: `AtomicPriorityQueue<T, Compare>`, each operation run
-- without interference, on the chains of Levels. `higher` is the comparator: its first argument has
-- the higher priority. `weak` lists which compare-exchanges on level 0 fail spuriously; the pauses
-- between attempts only wait.
pub mod Push
pub mod Pop
pub mod Popped
mod Examples
use cpp_lockfree_structures.Prelude.{
  ℕ, zero, suc, ◌+◌, Bool, true, false, not, ◌&&◌, Option, none, some, List, [], ◌∷◌, ◌++◌,
  if◌then◌else◌,
}
use cpp_lockfree_structures.Outcomes.{head_fails, tail}
use cpp_lockfree_structures.Levels.{Node, random_level, new_node, unlink, descend}

abbrev pub max_level : ℕ
max_level = 16

abbrev pub max_attempts : ℕ
max_attempts = 1000

module _ {ℓ} {A : Type ℓ} where
  pub init : List (Node A)
  init = []

  -- The inner test of `find_predecessors`.
  pub goes_before : (A → A → Bool) → A → A → Bool
  goes_before higher x y = higher y x

  pub find_predecessors : (A → A → Bool) → A → List (Node A) → List (Node A) × List (Node A)
  find_predecessors higher x nodes = descend (goes_before higher x) max_level nodes

  -- The loop of `push`, with the attempts that are left; whether it linked a node. `coins` are those
  -- of each attempt, and `retried` is what a failed attempt makes of the item.
  pub push_loop :
      (A → A → Bool)
      → (A → A)
      → ℕ
      → List Bool
      → (ℕ → List Bool)
      → A
      → List (Node A)
      → Bool × List (Node A)
  push_loop higher retried zero weak coins x nodes = (false, nodes)
  push_loop higher retried (suc n) weak coins x nodes =
      let d = find_predecessors higher x nodes in
      let again = push_loop higher retried n (tail weak) coins (retried x) (d.0 ++ d.1) in
      if head_fails weak
      then again
      else (true, d.0 ++ new_node x (random_level max_level (coins n)) ∷ d.1)

  -- `push(const T&)`, and `emplace`.
  pub push : (A → A → Bool) → List Bool → (ℕ → List Bool) → A → List (Node A) → Bool × List (Node A)
  push higher = push_loop higher (λ x. x) max_attempts

  -- `push(T&&)`: a failed attempt has moved the item into the node that it deletes; `moved` is what
  -- is left of it.
  pub push_move :
      (A → A → Bool)
      → (A → A)
      → List Bool
      → (ℕ → List Bool)
      → A
      → List (Node A)
      → Bool × List (Node A)
  push_move higher moved = push_loop higher moved max_attempts

  -- `moved` is what `std::move` leaves of an item.
  unfoldable pub mark : (A → A) → Node A → Node A
  mark moved c = record c { item = moved c.item; marked = true }

  -- The loop of `pop`, with the attempts that are left, over the nodes behind the head sentinel.
  unfoldable pub pop_loop : (A → A) → ℕ → List Bool → List (Node A) → Option A × List (Node A)
  pop_loop moved n weak [] = (none, [])
  pop_loop moved zero weak (c ∷ rest) = (none, c ∷ rest)
  pop_loop moved (suc n) weak (c ∷ rest) =
      let passed = pop_loop moved (suc n) weak rest in
      let retry = pop_loop moved n (tail weak) (c ∷ rest) in
      let helped = pop_loop moved n (tail weak) rest in
      if not (c.linked 0)
      then (passed.0, c ∷ passed.1)
      else if c.marked
      then (if head_fails weak then retry else (helped.0, unlink 0 c ∷ helped.1))
      else (some c.item, (if head_fails weak then mark moved c else unlink 0 (mark moved c)) ∷ rest)

  unfoldable pub pop : (A → A) → List Bool → List (Node A) → Option A × List (Node A)
  pop moved = pop_loop moved max_attempts

  -- `top`, which helps to unlink marked nodes too.
  unfoldable pub top : List (Node A) → Option A × List (Node A)
  top [] = (none, [])
  top (c ∷ rest) =
      let later = top rest in
      if not (c.linked 0)
      then (later.0, c ∷ later.1)
      else if c.marked
      then (later.0, unlink 0 c ∷ later.1)
      else (some c.item, c ∷ rest)

  unfoldable pub empty : List (Node A) → Bool
  empty [] = true
  empty (c ∷ rest) = let later = empty rest in if c.linked 0 && not c.marked then false else later

  -- The loop of `size`, over the chain of level 0.
  unfoldable pub size : List (Node A) → ℕ
  size [] = 0
  size (c ∷ rest) = let later = size rest in if c.linked 0 && not c.marked then suc later else later
