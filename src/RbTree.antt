-- ===== src/RbTree.antt =====
-- include/lockfree/atomic_rbtree.hpp: `AtomicRBTree<Key, Value, Compare>`, each operation run without
-- interference. The comparator is the parameter `less`. A node is reached only through its parent,
-- so the tree is a data type; the `parent` pointers, which only the iterator reads, are in RbTree/Iterator.
-- `weak` lists the compare-exchanges of a call that fail spuriously.
pub mod Lookup
pub mod Map
pub mod Entries
pub mod Search
pub mod Iterator
pub mod Order
pub mod Visit
mod Examples
use cpp_lockfree_structures.Prelude.{
  ℕ, zero, suc, ◌+◌, ◌-◌, Bool, true, false, Option, none, some, List, [], ◌∷◌, ◌==◌, if◌then◌else◌,
  add64, sub64,
}
use mathlib.Core.Option

pub data Color : Type 0 where
  red black : Color

pub data Tree {ℓ κ} (K : Type ℓ) (V : Type κ) : Type (ℓ ⊔ κ) where
  leaf : Tree K V
  node :
      (left : Tree K V) (key : K) (value : V) (color : Color) (marked : Bool) (right : Tree K V)
      → Tree K V

pub record RbTree {ℓ κ} (K : Type ℓ) (V : Type κ) : Type (ℓ ⊔ κ) where
  pub root : Tree K V
  pub count : ℕ

abbrev pub max_attempts : ℕ
max_attempts = 1000

module _ {ℓ κ} {K : Type ℓ} {V : Type κ} where
  pub init : RbTree K V
  init = record { root = leaf; count = 0 }

  -- `insert_fixup`, and the colouring of a first node: the root becomes black.
  pub fixup : Tree K V → Tree K V
  fixup leaf = leaf
  fixup (node l j w c m r) = node l j w black m r

  module _ (less : K → K → Bool) where
    -- The walk of `insert` to an insertion point and the new node there; `none` if the key is found.
    pub place : K → V → Tree K V → Option (Tree K V)
    place k v leaf = some (node leaf k v red false leaf)
    place k v (node l j w c m r) =
        if less k j
        then Option.map (λ l'. node l' j w c m r) (place k v l)
        else if less j k
        then Option.map (λ r'. node l j w c m r') (place k v r)
        else none

    -- The loop of `insert`, with the attempts that are left.
    pub insert_loop : ℕ → List Bool → K → V → RbTree K V → Bool × RbTree K V
    insert_loop zero weak k v t = (false, t)
    insert_loop (suc n) [] k v t = elim (place k v t.root) [
      | none ↦ (false, t)
      | some root' ↦ (true, record { root = fixup root'; count = add64 t.count 1 })
    ]
    insert_loop (suc n) (fails ∷ weak) k v t =
        let retry = insert_loop n weak k v t in
        elim (place k v t.root) [
          | none ↦ (false, t)
          | some root' ↦
              if fails
              then retry
              else (true, record { root = fixup root'; count = add64 t.count 1 })
        ]

    -- `insert(const Key&, const Value&)`, `insert(Key&&, Value&&)` and `emplace`.
    pub insert : List Bool → K → V → RbTree K V → Bool × RbTree K V
    insert = insert_loop max_attempts

    -- `find_node`: the value of the node, if it is not marked.
    pub find_node : K → Tree K V → Option V
    find_node k leaf = none
    find_node k (node l j w c m r) =
        let down = if less k j then find_node k l else find_node k r in
        if less k j then down else if less j k then down else if m then none else some w

    pub find : K → RbTree K V → Option V
    find k t = find_node k t.root

    pub contains : K → RbTree K V → Bool
    contains k t = elim (find_node k t.root) [ none ↦ false | some v ↦ true ]

    pub find_if : K → (V → Bool) → RbTree K V → Bool
    find_if k pred t = elim (find_node k t.root) [ none ↦ false | some v ↦ pred v ]

    -- The mark that `erase` sets on the node of a key.
    pub mark : K → Tree K V → Tree K V
    mark k leaf = leaf
    mark k (node l j w c m r) =
        if less k j
        then node (mark k l) j w c m r
        else if less j k
        then node l j w c m (mark k r)
        else node l j w c true r

    -- `erase`: its `compare_exchange_weak` on the mark may fail spuriously, once (`fails`).
    pub erase : Bool → K → RbTree K V → Bool × RbTree K V
    erase fails k t = elim (find_node k t.root) [
      | none ↦ (false, t)
      | some v ↦
          if fails
          then (false, t)
          else (true, record { root = mark k t.root; count = sub64 t.count 1 })
    ]

  pub empty : RbTree K V → Bool
  empty t = t.count == 0

  pub size : RbTree K V → ℕ
  size t = t.count
