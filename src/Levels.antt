-- ===== src/Levels.antt =====
-- The chains of include/lockfree/atomic_skiplist.hpp and include/lockfree/atomic_priority_queue.hpp,
-- each operation run without interference. The nodes between the sentinels `head_` and `tail_` are one
-- list, and a node is in the chain of level `i` if `linked i`: each chain goes through its nodes in
-- the order of the list. That is so because the walks stand on unmarked nodes only and unlink what
-- they pass, so a new node goes behind the last node that it passed on every level. A
-- compare-exchange that unlinks a node is tried until it succeeds and leaves no other trace, and
-- those that link a new node above level 0 succeed within their attempts.
pub mod Order
pub mod Walk
pub mod Place
use cpp_lockfree_structures.Prelude.{
  ℕ, zero, suc, ◌-◌, Bool, true, false, not, ◌&&◌, List, [], ◌∷◌, ◌++◌, map, ltb, leb, ◌==◌,
  if◌then◌else◌,
}

pub record Node {ℓ} (A : Type ℓ) : Type ℓ where
  pub item : A
  pub level : ℕ
  pub linked : ℕ → Bool
  pub marked : Bool

-- `random_level`, with `MAX_LEVEL` and the coins that come up: `true` is one more level.
pub random_level_loop : ℕ → ℕ → List Bool → ℕ
random_level_loop max_level level [] = level
random_level_loop max_level level (coin ∷ coins) =
    let higher = random_level_loop max_level (suc level) coins in
    if ltb level (max_level - 1) && coin then higher else level

pub random_level : ℕ → List Bool → ℕ
random_level max_level coins = random_level_loop max_level 0 coins

module _ {ℓ} {A : Type ℓ} where
  -- A new node, once it is linked on the levels up to its own.
  pub new_node : A → ℕ → Node A
  new_node x level = record { item = x; level = level; linked = λ i. leb i level; marked = false }

  unfoldable pub unlink : ℕ → Node A → Node A
  unlink i c = record c { linked = λ j. if j == i then false else c.linked j }

  -- The walk goes on behind `c`: `c` is passed if the walk then stands on a later node.
  pub carry : Node A → List (Node A) × List (Node A) → List (Node A) × List (Node A)
  carry c ([], rest) = ([], c ∷ rest)
  carry c (d ∷ passed, rest) = (c ∷ d ∷ passed, rest)

  -- One round of the inner loop of `find_predecessors` at `c`, given whether `c` is in the chain, passes
  -- the test and is marked; `w` is what the later rounds come to.
  pub visit :
      ℕ
      → Node A
      → List (Node A)
      → List (Node A) × List (Node A)
      → Bool
      → Bool
      → Bool
      → List (Node A) × List (Node A)
  visit i c rest w false passes marked = carry c w
  visit i c rest w true false marked = ([], c ∷ rest)
  visit i c rest w true true true = carry (unlink i c) w
  visit i c rest w true true false = (c ∷ w.0, w.1)

  -- The inner loop of `find_predecessors` on one level, over the nodes behind `current`: those up to
  -- the new `current`, and those behind it. `passes` is the test by which it goes on.
  pub walk : (A → Bool) → ℕ → List (Node A) → List (Node A) × List (Node A)
  walk passes i [] = ([], [])
  walk passes i (c ∷ rest) =
      visit i c rest (walk passes i rest) (c.linked i) (passes c.item) c.marked

  -- `find_predecessors`, with the levels that are left: the nodes up to `predecessors[0]`, and those
  -- behind it.
  pub descend : (A → Bool) → ℕ → List (Node A) → List (Node A) × List (Node A)
  descend passes zero nodes = ([], nodes)
  descend passes (suc i) nodes =
      let w = walk passes i nodes in let below = descend passes i w.1 in (w.0 ++ below.0, below.1)

  -- The items that are in: those of the unmarked nodes.
  unfoldable pub live : List (Node A) → List A
  live [] = []
  live (c ∷ rest) = let later = live rest in if c.marked then later else c.item ∷ later
