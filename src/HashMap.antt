-- ===== src/HashMap.antt =====
-- include/lockfree/atomic_hashmap.hpp: `AtomicHashMap<Key, Value, Hash, KeyEqual>`, each operation
-- run without interference. `hash` and `same` are the hasher and the key comparator, called as the
-- code calls them: `same` on a node's key, then the key looked for. A bucket's chain from `head` on
-- is a list. `weak` lists the compare-exchanges of a call that fail spuriously.
pub mod Chain
pub mod Map
pub mod Erase
pub mod Unique
pub mod Iterate
mod Examples
use cpp_lockfree_structures.Prelude.{
  ℕ, zero, suc, ◌+◌, ◌-◌, ◌*◌, ◌/◌, ◌%◌, ◌^◌, Bool, true, false, not, ◌&&◌, Option, none, some,
  List, [], ◌∷◌, ltb, if◌then◌else◌, add64, sub64, update,
}

pub record Node {ℓ κ} (K : Type ℓ) (V : Type κ) : Type (ℓ ⊔ κ) where
  pub key : K
  pub value : V
  pub deleted : Bool

pub record HashMap {ℓ κ} (K : Type ℓ) (V : Type κ) : Type (ℓ ⊔ κ) where
  pub buckets : ℕ → List (Node K V)
  pub count : ℕ
  pub bucket_count : ℕ

-- An iterator: a bucket, and the nodes of its chain that are left.
pub record Iterator {ℓ κ} (K : Type ℓ) (V : Type κ) : Type (ℓ ⊔ κ) where
  pub bucket_index : ℕ
  pub current : List (Node K V)

abbrev pub default_bucket_count : ℕ
default_bucket_count = 1024

abbrev pub max_attempts : ℕ
max_attempts = 100

abbrev pub max_attempts_move : ℕ
max_attempts_move = 1000

module _ {ℓ κ} {K : Type ℓ} {V : Type κ} where
  pub init : ℕ → HashMap K V
  init initial_bucket_count = record {
    buckets = λ i. [];
    count = 0;
    bucket_count = initial_bucket_count;
  }

  -- The default constructor.
  pub default_init : HashMap K V
  default_init = init default_bucket_count

  unfoldable pub empty_chain : List (Node K V) → Bool
  empty_chain [] = true
  empty_chain (c ∷ rest) = if c.deleted then empty_chain rest else false

  -- `empty`: its loop, with the number of buckets that are left.
  unfoldable pub empty_loop : ℕ → ℕ → HashMap K V → Bool
  empty_loop zero i m = true
  empty_loop (suc n) i m =
      let later = empty_loop n (suc i) m in if empty_chain (m.buckets i) then later else false

  unfoldable pub empty : HashMap K V → Bool
  empty m = empty_loop m.bucket_count 0 m

  pub size : HashMap K V → ℕ
  size m = m.count

  -- `should_resize`: more than 50 elements for 100 buckets.
  pub should_resize : HashMap K V → Bool
  should_resize m = ltb 50 (m.count * 100 % 2 ^ 64 / m.bucket_count)

  -- The nodes of a chain from the first one that is not deleted.
  unfoldable pub skip_deleted : List (Node K V) → List (Node K V)
  skip_deleted [] = []
  skip_deleted (c ∷ rest) = if c.deleted then skip_deleted rest else c ∷ rest

  -- The second loop of `advance_to_next_valid`, with fuel: on to the next bucket that has a node.
  unfoldable pub advance_loop : ℕ → HashMap K V → ℕ → List (Node K V) → Iterator K V
  advance_loop zero m i current = record { bucket_index = i; current = current }
  advance_loop (suc n) m i (c ∷ rest) = record { bucket_index = i; current = c ∷ rest }
  advance_loop (suc n) m i [] =
      let on = advance_loop n m (suc i) (skip_deleted (m.buckets (suc i))) in
      let over = advance_loop n m (suc i) [] in
      if ltb i m.bucket_count
      then (if ltb (suc i) m.bucket_count then on else over)
      else record { bucket_index = i; current = [] }

  unfoldable pub advance_to_next_valid : HashMap K V → Iterator K V → Iterator K V
  advance_to_next_valid m it =
      advance_loop (suc m.bucket_count) m it.bucket_index (skip_deleted it.current)

  unfoldable pub begin : HashMap K V → Iterator K V
  begin m =
      advance_to_next_valid m
        (record { bucket_index = 0; current = if ltb 0 m.bucket_count then m.buckets 0 else [] })

  -- `operator++`.
  unfoldable pub next : HashMap K V → Iterator K V → Iterator K V
  next m it = elim it.current [
    | [] ↦ it
    | c ∷ rest ↦ advance_to_next_valid m (record it { current = rest })
  ]

  module _ (same : K → K → Bool) where
    -- `find_node`: the value of the node.
    unfoldable pub find_node : K → List (Node K V) → Option V
    find_node k [] = none
    find_node k (c ∷ rest) =
        let later = find_node k rest in
        if not c.deleted && same c.key k then some c.value else later

    -- The mark that `erase` sets: on the node that `find_node` returns.
    unfoldable pub mark : K → List (Node K V) → List (Node K V)
    mark k [] = []
    mark k (c ∷ rest) =
        let later = mark k rest in
        if not c.deleted && same c.key k then record c { deleted = true } ∷ rest else c ∷ later

    module _ (hash : K → ℕ) where
      unfoldable pub get_bucket_index : K → HashMap K V → ℕ
      get_bucket_index k m = hash k % m.bucket_count

      unfoldable pub find : K → HashMap K V → Option V
      find k m = find_node k (m.buckets (get_bucket_index k m))

      unfoldable pub contains : K → HashMap K V → Bool
      contains k m = elim (find_node k (m.buckets (get_bucket_index k m))) [
        | none ↦ false
        | some v ↦ true
      ]

      pub find_if : K → (V → Bool) → HashMap K V → Bool
      find_if k func m = elim (find_node k (m.buckets (get_bucket_index k m))) [
        | none ↦ false
        | some v ↦ func v
      ]

      -- The new node becomes the head of its chain.
      unfoldable pub link : K → V → HashMap K V → HashMap K V
      link k v m = record m {
        buckets =
            update m.buckets (get_bucket_index k m)
              ((record { key = k; value = v; deleted = false }) ∷ m.buckets (get_bucket_index k m));
        count = add64 m.count 1;
      }

      -- The loop of `insert(const Key&, const Value&)`, which does not look for the key again.
      unfoldable pub link_loop : ℕ → List Bool → K → V → HashMap K V → Bool × HashMap K V
      link_loop zero weak k v m = (false, m)
      link_loop (suc n) [] k v m = (true, link k v m)
      link_loop (suc n) (true ∷ weak) k v m = link_loop n weak k v m
      link_loop (suc n) (false ∷ weak) k v m = (true, link k v m)

      -- `insert(const Key&, const Value&)`.
      unfoldable pub insert : List Bool → K → V → HashMap K V → Bool × HashMap K V
      insert weak k v m = elim (find_node k (m.buckets (get_bucket_index k m))) [
        | none ↦ link_loop max_attempts weak k v m
        | some w ↦ (false, m)
      ]

      -- The loop of `insert(Key&&, Value&&)`, which looks for the key in every attempt.
      pub move_loop : ℕ → List Bool → K → V → HashMap K V → Bool × HashMap K V
      move_loop zero weak k v m = (false, m)
      move_loop (suc n) [] k v m = elim (find_node k (m.buckets (get_bucket_index k m))) [
        | none ↦ (true, link k v m)
        | some w ↦ (false, m)
      ]
      move_loop (suc n) (fails ∷ weak) k v m =
          let retry = move_loop n weak k v m in
          elim (find_node k (m.buckets (get_bucket_index k m))) [
            | none ↦ if fails then retry else (true, link k v m)
            | some w ↦ (false, m)
          ]

      -- `insert(Key&&, Value&&)`.
      pub insert_move : List Bool → K → V → HashMap K V → Bool × HashMap K V
      insert_move = move_loop max_attempts_move

      unfoldable pub erase : K → HashMap K V → Bool × HashMap K V
      erase k m = elim (find_node k (m.buckets (get_bucket_index k m))) [
        | none ↦ (false, m)
        | some v ↦ (
          true,
          record m {
            buckets =
                update m.buckets (get_bucket_index k m) (mark k (m.buckets (get_bucket_index k m)));
            count = sub64 m.count 1;
          },
        )
      ]
