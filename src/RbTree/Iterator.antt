-- ===== src/RbTree/Iterator.antt =====
-- The iterator of include/lockfree/atomic_rbtree.hpp. It follows the `parent` pointers up, so a position
-- is a subtree with the nodes above it; the walk over the marked nodes takes fuel.
use cpp_lockfree_structures.Prelude.{
  ℕ, zero, suc, Bool, true, false, Option, none, some, if◌then◌else◌,
}
use cpp_lockfree_structures.RbTree.{Color, Tree, leaf, node, RbTree}

-- The nodes that `parent` leads to, the nearest first: the position hangs on the left of it, or on the
-- right.
pub data Parents {ℓ κ} (K : Type ℓ) (V : Type κ) : Type (ℓ ⊔ κ) where
  top : Parents K V
  left_of :
      (key : K) (value : V) (color : Color) (marked : Bool) (right : Tree K V)
      (parent : Parents K V)
      → Parents K V
  right_of :
      (left : Tree K V) (key : K) (value : V) (color : Color) (marked : Bool) (parent : Parents K V)
      → Parents K V

-- `current_`, a null pointer if it is a leaf.
pub record Iterator {ℓ κ} (K : Type ℓ) (V : Type κ) : Type (ℓ ⊔ κ) where
  pub current : Tree K V
  pub parent : Parents K V

module _ {ℓ κ} {K : Type ℓ} {V : Type κ} where
  unfoldable pub end : Iterator K V
  end = record { current = leaf; parent = top }

  unfoldable pub leftmost : Tree K V → Parents K V → Iterator K V
  leftmost leaf up = record { current = leaf; parent = up }
  leftmost (node leaf k v c m r) up = record { current = node leaf k v c m r; parent = up }
  leftmost (node (node ll kl vl cl ml rl) k v c m r) up =
      leftmost (node ll kl vl cl ml rl) (left_of k v c m r up)

  -- The way up from a node without a right child, to the first parent that it is on the left of.
  unfoldable pub climb : Tree K V → Parents K V → Iterator K V
  climb t top = end
  climb t (left_of k v c m r up) = record { current = node t k v c m r; parent = up }
  climb t (right_of l k v c m up) = climb (node l k v c m t) up

  -- The step that `advance` and `operator++` share.
  unfoldable pub successor : Tree K V → Parents K V → Iterator K V
  successor leaf up = end
  successor (node l k v c m leaf) up = climb (node l k v c m leaf) up
  successor (node l k v c m (node lr kr vr cr mr rr)) up =
      leftmost (node lr kr vr cr mr rr) (right_of l k v c m up)

  unfoldable pub is_marked : Tree K V → Bool
  is_marked leaf = false
  is_marked (node l k v c m r) = m

  unfoldable pub advance : ℕ → Iterator K V → Iterator K V
  advance zero it = it
  advance (suc f) it =
      let later = advance f (successor it.current it.parent) in
      if is_marked it.current then later else it

  -- `operator++`.
  unfoldable pub next : ℕ → Iterator K V → Iterator K V
  next f it = advance f (successor it.current it.parent)

  -- `begin`, with the iterator's constructor, which walks past marked nodes.
  unfoldable pub begin : ℕ → RbTree K V → Iterator K V
  begin f t = advance f (leftmost t.root top)

  -- `operator*`.
  unfoldable pub get? : Iterator K V → Option (K × V)
  get? it = elim it.current [ leaf ↦ none | node l k v c m r ↦ some (k, v) ]

  -- `operator==` with `end`.
  unfoldable pub at_end : Iterator K V → Bool
  at_end it = elim it.current [ leaf ↦ true | node l k v c m r ↦ false ]
