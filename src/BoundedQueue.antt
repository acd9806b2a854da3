-- ===== src/BoundedQueue.antt =====
-- What the bounded queues promise: a FIFO of at most `cap` elements, oldest first. Also how many
-- spurious failures a list of compare-exchange outcomes begins with.
use cpp_lockfree_structures.Prelude.{
  ℕ, suc, Bool, true, false, Option, none, some, List, [], ◌∷◌, ◌++◌, length, ltb, if◌then◌else◌,
}

-- The failures before the first success.
abbrev pub failures : List Bool → ℕ
failures [] = 0
failures (true ∷ weak) = suc (failures weak)
failures (false ∷ weak) = 0

module _ {ℓ} {A : Type ℓ} where
  -- What is left in the queue, and the element returned.
  abbrev pub pop : List A → Option A × List A
  pop [] = (none, [])
  pop (x ∷ xs) = (some x, xs)

  abbrev pub push : ℕ → A → List A → Bool × List A
  push cap x xs = if ltb (length xs) cap then (true, xs ++ x ∷ []) else (false, xs)
