-- ===== src/SkipList.antt =====
-- include/lockfree/atomic_skiplist.hpp: `AtomicSkipList<Key, Value, Compare>`, each operation run
-- without interference, on the chains of Levels. `less` is the comparator. `weak` lists which
-- compare-exchanges on level 0 fail spuriously, and `coins` are those of each attempt.
pub mod Keys
pub mod Ordered
pub mod Seek
pub mod Search
pub mod Map
pub mod Erase
pub mod Iterate
mod Examples
use cpp_lockfree_structures.Prelude.{
  ℕ, zero, suc, ◌+◌, ◌≡◌, Bool, true, false, not, ◌&&◌, ◌||◌, Option, none, some, List, [], ◌∷◌,
  ◌++◌, is_some, if◌then◌else◌,
}
use cpp_lockfree_structures.Outcomes.{head_fails, tail}
use cpp_lockfree_structures.Levels.{Node, random_level, new_node, unlink, carry, descend}

abbrev pub max_level : ℕ
max_level = 32

abbrev pub max_attempts : ℕ
max_attempts = 1000

-- A node's item is its key and value.
abbrev pub Entry {ℓ κ} : Type ℓ → Type κ → Type (ℓ ⊔ κ)
Entry K V = K × V

-- What a search has found, and the nodes up to where it stands and behind that.
abbrev pub Found {ℓ κ} : Type ℓ → Type κ → Type (ℓ ⊔ κ)
Found K V = Option V × List (Node (Entry K V)) × List (Node (Entry K V))

abbrev pub satisfies {ℓ} : {A : Type ℓ} → (A → Bool) → Option A → Bool
satisfies func none = false
satisfies func (some v) = func v

module _ {ℓ κ} {K : Type ℓ} {V : Type κ} where
  unfoldable pub init : List (Node (Entry K V))
  init = []

  module _ (less : K → K → Bool) where
    -- The inner test of `find_predecessors`.
    unfoldable pub not_behind : K → Entry K V → Bool
    not_behind k e = not (less k e.0)

    unfoldable pub find_predecessors :
        K → List (Node (Entry K V)) → List (Node (Entry K V)) × List (Node (Entry K V))
    find_predecessors k nodes = descend (not_behind k) max_level nodes

    -- One round of the inner loop of `find` at `c`, given whether `c` is in the chain and is marked, whether `k`
    -- is less than its key, and whether its key is less than `k`; `w` is what the later rounds come to.
    unfoldable pub seek_at :
        ℕ
        → Node (Entry K V)
        → List (Node (Entry K V))
        → Found K V
        → Bool
        → Bool
        → Bool
        → Bool
        → Found K V
    seek_at i c rest w false marked before behind = let p = carry c (w.1, w.2) in (w.0, p.0, p.1)
    seek_at i c rest w true true before behind =
        let p = carry (unlink i c) (w.1, w.2) in (w.0, p.0, p.1)
    seek_at i c rest w true false true behind = (none, [], c ∷ rest)
    seek_at i c rest w true false false true = (w.0, c ∷ w.1, w.2)
    seek_at i c rest w true false false false = (some c.item.1, [], c ∷ rest)

    -- The inner loop of `find` on one level.
    unfoldable pub seek : K → ℕ → List (Node (Entry K V)) → Found K V
    seek k i [] = (none, [], [])
    seek k i (c ∷ rest) =
        seek_at i c rest (seek k i rest) (c.linked i) c.marked (less k c.item.0) (less c.item.0 k)

    -- The loop of `find`, with the levels that are left: what it has found, and the nodes, some of
    -- them unlinked.
    unfoldable pub find_loop : K → ℕ → List (Node (Entry K V)) → Option V × List (Node (Entry K V))
    find_loop k zero nodes = (none, nodes)
    find_loop k (suc i) nodes =
        let w = seek k i nodes in
        let below = find_loop k i w.2 in
        elim w.0 [ some v ↦ (some v, w.1 ++ w.2) | none ↦ (below.0, w.1 ++ below.1) ]

    -- `find`, whose value is `result` when it returns true.
    unfoldable pub find : K → List (Node (Entry K V)) → Option V × List (Node (Entry K V))
    find k = find_loop k max_level

    unfoldable pub contains : K → List (Node (Entry K V)) → Bool × List (Node (Entry K V))
    contains k nodes = let f = find k nodes in (is_some f.0, f.1)

    unfoldable pub find_if :
        K → (V → Bool) → List (Node (Entry K V)) → Bool × List (Node (Entry K V))
    find_if k func nodes = let f = find k nodes in (satisfies func f.0, f.1)

    -- `successor` in `insert`: whether the next node of the chain of level 0 has the key.
    unfoldable pub successor_has : K → List (Node (Entry K V)) → Bool
    successor_has k [] = false
    successor_has k (c ∷ rest) =
        let later = successor_has k rest in
        if c.linked 0 then not (less k c.item.0) && not (less c.item.0 k) else later

    -- The loop of `insert`, with the attempts that are left. `retried` is what a failed attempt makes
    -- of the key and the value.
    unfoldable pub insert_loop :
        (Entry K V → Entry K V)
        → ℕ
        → List Bool
        → (ℕ → List Bool)
        → Entry K V
        → List (Node (Entry K V))
        → Bool × List (Node (Entry K V))
    insert_loop retried zero weak coins e nodes = (false, nodes)
    insert_loop retried (suc n) weak coins e nodes =
        let found = contains e.0 nodes in
        let d = find_predecessors e.0 found.1 in
        let again = insert_loop retried n (tail weak) coins (retried e) (d.0 ++ d.1) in
        if found.0
        then (false, found.1)
        else if successor_has e.0 d.1
        then (false, d.0 ++ d.1)
        else if head_fails weak
        then again
        else (true, d.0 ++ new_node e (random_level max_level (coins n)) ∷ d.1)

    -- `insert(const Key&, const Value&)`.
    unfoldable pub insert :
        List Bool
        → (ℕ → List Bool)
        → K
        → V
        → List (Node (Entry K V))
        → Bool × List (Node (Entry K V))
    insert weak coins k v = insert_loop (λ e. e) max_attempts weak coins (k, v)

    -- `insert(Key&&, Value&&)`: a failed attempt has moved key and value into the node that it deletes.
    unfoldable pub insert_move :
        (Entry K V → Entry K V)
        → List Bool
        → (ℕ → List Bool)
        → K
        → V
        → List (Node (Entry K V))
        → Bool × List (Node (Entry K V))
    insert_move moved weak coins k v = insert_loop moved max_attempts weak coins (k, v)

    unfoldable pub mark : Node (Entry K V) → Node (Entry K V)
    mark c = record c { marked = true }

    -- One round of the loop of `erase` at `c`, with the tests of `seek_at`.
    unfoldable pub erase_at :
        Node (Entry K V)
        → List (Node (Entry K V))
        → Bool × List (Node (Entry K V))
        → Bool
        → Bool
        → Bool
        → Bool
        → Bool × List (Node (Entry K V))
    erase_at c rest w false marked before behind = (w.0, c ∷ w.1)
    erase_at c rest w true true before behind = (w.0, unlink 0 c ∷ w.1)
    erase_at c rest w true false true behind = (false, c ∷ rest)
    erase_at c rest w true false false true = (w.0, c ∷ w.1)
    erase_at c rest w true false false false = (true, mark c ∷ rest)

    unfoldable pub erase : K → List (Node (Entry K V)) → Bool × List (Node (Entry K V))
    erase k [] = (false, [])
    erase k (c ∷ rest) =
        erase_at c rest (erase k rest) (c.linked 0) c.marked (less k c.item.0) (less c.item.0 k)

  unfoldable pub empty : List (Node (Entry K V)) → Bool
  empty [] = true
  empty (c ∷ rest) = let later = empty rest in if c.linked 0 && not c.marked then false else later

  unfoldable pub size : List (Node (Entry K V)) → ℕ
  size [] = 0
  size (c ∷ rest) = let later = size rest in if c.linked 0 && not c.marked then suc later else later

  -- An iterator is the nodes from `current_` on: `skip` is the loop that passes over the marked ones
  -- of the chain of level 0, and over those that are not in it.
  unfoldable pub skip : List (Node (Entry K V)) → List (Node (Entry K V))
  skip [] = []
  skip (c ∷ rest) = let later = skip rest in if c.linked 0 && not c.marked then c ∷ rest else later

  unfoldable pub begin : List (Node (Entry K V)) → List (Node (Entry K V))
  begin = skip

  -- `operator*`, where the iterator is not at the end.
  unfoldable pub get? : List (Node (Entry K V)) → Option (Entry K V)
  get? [] = none
  get? (c ∷ rest) = some c.item

  -- `operator++`.
  unfoldable pub next : List (Node (Entry K V)) → List (Node (Entry K V))
  next [] = []
  next (c ∷ rest) = skip rest
