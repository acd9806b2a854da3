-- ===== src/HashSet.antt =====
-- include/lockfree/atomic_set.hpp: `AtomicSet<T, Hash, KeyEqual>`, each operation run without
-- interference. `hash` and `same` are the hasher and the comparator, called as the code calls them.
-- A bucket's chain from `head` on is a list. `weak` lists the compare-exchanges of a call that fail
-- spuriously. `resize_if_needed` does nothing.
pub mod Sim
pub mod Ops
pub mod Iterate
pub mod Subset
mod Examples
use cpp_lockfree_structures.Prelude.{
  ℕ, zero, suc, ◌+◌, ◌*◌, ◌/◌, ◌%◌, ◌^◌, Bool, true, false, not, ◌&&◌, Option, none, some, List, [],
  ◌∷◌, is_nil, is_some, length, ltb, ◌==◌, if◌then◌else◌, add64, sub64, update,
}
use mathlib.Core.Option
use cpp_lockfree_structures.Outcomes.{head_fails, tail}

pub record Node {ℓ} (T : Type ℓ) : Type ℓ where
  pub item : T
  pub deleted : Bool

pub record Set {ℓ} (T : Type ℓ) : Type ℓ where
  pub buckets : ℕ → List (Node T)
  pub count : ℕ
  pub bucket_count : ℕ

-- An iterator: a bucket, and the nodes of its chain that are left.
pub record Iterator {ℓ} (T : Type ℓ) : Type ℓ where
  pub bucket_index : ℕ
  pub current : List (Node T)

abbrev pub initial_bucket_count : ℕ
initial_bucket_count = 1024

abbrev pub max_attempts : ℕ
max_attempts = 100

abbrev pub max_attempts_move : ℕ
max_attempts_move = 1000

module _ {ℓ} {T : Type ℓ} where
  unfoldable pub init : ℕ → Set T
  init n = record { buckets = λ i. []; count = 0; bucket_count = n }

  -- The default constructor.
  unfoldable pub default_init : Set T
  default_init = init initial_bucket_count

  unfoldable pub empty_chain : List (Node T) → Bool
  empty_chain [] = true
  empty_chain (c ∷ rest) = let later = empty_chain rest in if c.deleted then later else false

  -- `empty`: its loop, with the number of buckets that are left.
  unfoldable pub empty_loop : ℕ → ℕ → Set T → Bool
  empty_loop zero i s = true
  empty_loop (suc n) i s =
      let later = empty_loop n (suc i) s in if empty_chain (s.buckets i) then later else false

  unfoldable pub empty : Set T → Bool
  empty s = empty_loop s.bucket_count 0 s

  unfoldable pub size : Set T → ℕ
  size s = s.count

  -- `should_resize`: more than 50 elements for 100 buckets.
  unfoldable pub should_resize : Set T → Bool
  should_resize s = ltb 50 (s.count * 100 % 2 ^ 64 / s.bucket_count)

  -- The nodes of a chain from the first one that is not deleted.
  unfoldable pub skip_deleted : List (Node T) → List (Node T)
  skip_deleted [] = []
  skip_deleted (c ∷ rest) = let later = skip_deleted rest in if c.deleted then later else c ∷ rest

  -- The second loop of `advance_to_next_valid`, with fuel: on to the next bucket that has a node.
  unfoldable pub advance_loop : ℕ → Set T → ℕ → List (Node T) → Iterator T
  advance_loop zero s i current = record { bucket_index = i; current = current }
  advance_loop (suc n) s i (c ∷ rest) = record { bucket_index = i; current = c ∷ rest }
  advance_loop (suc n) s i [] =
      let on = advance_loop n s (suc i) (skip_deleted (s.buckets (suc i))) in
      let over = advance_loop n s (suc i) [] in
      if ltb i s.bucket_count
      then (if ltb (suc i) s.bucket_count then on else over)
      else record { bucket_index = i; current = [] }

  unfoldable pub advance_to_next_valid : Set T → Iterator T → Iterator T
  advance_to_next_valid s it =
      advance_loop (suc s.bucket_count) s it.bucket_index (skip_deleted it.current)

  unfoldable pub begin : Set T → Iterator T
  begin s =
      advance_to_next_valid s
        (record { bucket_index = 0; current = if ltb 0 s.bucket_count then s.buckets 0 else [] })

  -- `operator++`.
  unfoldable pub next : Set T → Iterator T → Iterator T
  next s it = elim it.current [
    | [] ↦ it
    | c ∷ rest ↦ advance_to_next_valid s (record it { current = rest })
  ]

  -- `it == end()`.
  unfoldable pub at_end : Set T → Iterator T → Bool
  at_end s it = (it.bucket_index == s.bucket_count) && is_nil it.current

  -- The loop of `to_vector`, with fuel: `none` if it does not end, and where it dereferences an iterator
  -- without a node.
  unfoldable pub to_vector_loop : ℕ → Set T → Iterator T → Option (List T)
  to_vector_loop zero s it = none
  to_vector_loop (suc n) s it = if at_end s it then some [] else elim it.current [
    | [] ↦ none
    | c ∷ rest ↦ Option.map (λ l. c.item ∷ l) (to_vector_loop n s (next s it))
  ]

  -- The nodes of `n` buckets from the bucket `i` on, deleted ones included.
  unfoldable pub nodes : ℕ → ℕ → Set T → ℕ
  nodes zero i s = 0
  nodes (suc n) i s = length (s.buckets i) + nodes n (suc i) s

  -- The fuel of the loops over all elements: one more than there are nodes.
  abbrev pub rounds : Set T → ℕ
  rounds s = suc (nodes s.bucket_count 0 s)

  unfoldable pub to_vector : Set T → Option (List T)
  to_vector s = to_vector_loop (rounds s) s (begin s)

  -- The loop of `count_if`, as for `to_vector`.
  unfoldable pub count_if_loop : ℕ → (T → Bool) → ℕ → Set T → Iterator T → Option ℕ
  count_if_loop zero pred count s it = none
  count_if_loop (suc n) pred count s it = if at_end s it then some count else elim it.current [
    | [] ↦ none
    | c ∷ rest ↦ count_if_loop n pred (if pred c.item then suc count else count) s (next s it)
  ]

  unfoldable pub count_if : (T → Bool) → Set T → Option ℕ
  count_if pred s = count_if_loop (rounds s) pred 0 s (begin s)

  module _ (same : T → T → Bool) where
    -- `find_node`: the data of the node.
    unfoldable pub find_node : T → List (Node T) → Option T
    find_node x [] = none
    find_node x (c ∷ rest) =
        let later = find_node x rest in
        if not c.deleted && same c.item x then some c.item else later

    -- The mark that `erase` sets: on the node that `find_node` returns.
    unfoldable pub mark : T → List (Node T) → List (Node T)
    mark x [] = []
    mark x (c ∷ rest) =
        let later = mark x rest in
        if not c.deleted && same c.item x then record c { deleted = true } ∷ rest else c ∷ later

    module _ (hash : T → ℕ) where
      unfoldable pub get_bucket_index : T → Set T → ℕ
      get_bucket_index x s = hash x % s.bucket_count

      -- `contains`, and `find`.
      unfoldable pub contains : T → Set T → Bool
      contains x s = is_some (find_node x (s.buckets (get_bucket_index x s)))

      -- The new node becomes the head of the chain of the bucket `i`.
      unfoldable pub link : ℕ → T → Set T → Set T
      link i x s = record s {
        buckets = update s.buckets i ((record { item = x; deleted = false }) ∷ s.buckets i);
        count = add64 s.count 1;
      }

      -- The loop of `insert(const T&)`, which does not look for the value again.
      unfoldable pub link_loop : ℕ → List Bool → ℕ → T → Set T → Bool × Set T
      link_loop zero weak i x s = (false, s)
      link_loop (suc n) weak i x s =
          let again = link_loop n (tail weak) i x s in
          if head_fails weak then again else (true, link i x s)

      -- `insert(const T&)`.
      unfoldable pub insert : List Bool → T → Set T → Bool × Set T
      insert weak x s =
          let i = get_bucket_index x s in
          elim (find_node x (s.buckets i)) [
            | none ↦ link_loop max_attempts weak i x s
            | some y ↦ (false, s)
          ]

      -- The loop of `insert(T&&)`: a failed attempt has moved the value into the node that it deletes, and
      -- the next one goes on in the same bucket with `moved` of it.
      unfoldable pub move_loop : (T → T) → ℕ → List Bool → ℕ → T → Set T → Bool × Set T
      move_loop moved zero weak i x s = (false, s)
      move_loop moved (suc n) weak i x s =
          let again = move_loop moved n (tail weak) i (moved x) s in
          elim (find_node x (s.buckets i)) [
            | none ↦ if head_fails weak then again else (true, link i x s)
            | some y ↦ (false, s)
          ]

      -- `insert(T&&)`, and `emplace`.
      unfoldable pub insert_move : (T → T) → List Bool → T → Set T → Bool × Set T
      insert_move moved weak x s = move_loop moved max_attempts_move weak (get_bucket_index x s) x s

      -- `insert(InputIt first, InputIt last)`, with the compare-exchanges of each call.
      unfoldable pub insert_range : List (List Bool × T) → Set T → Set T
      insert_range [] s = s
      insert_range ((weak, x) ∷ xs) s = insert_range xs (insert weak x s).1

      unfoldable pub erase : T → Set T → Bool × Set T
      erase x s =
          let i = get_bucket_index x s in
          elim (find_node x (s.buckets i)) [
            | none ↦ (false, s)
            | some y ↦ (
              true,
              record s {
                buckets = update s.buckets i (mark x (s.buckets i));
                count = sub64 s.count 1;
              },
            )
          ]

      -- The loop of `is_subset_of`, as for `to_vector`.
      unfoldable pub is_subset_of_loop : ℕ → Set T → Set T → Iterator T → Option Bool
      is_subset_of_loop zero other s it = none
      is_subset_of_loop (suc n) other s it = if at_end s it then some true else elim it.current [
        | [] ↦ none
        | c ∷ rest ↦
            let later = is_subset_of_loop n other s (next s it) in
            if not (contains c.item other) then some false else later
      ]

      unfoldable pub is_subset_of : Set T → Set T → Option Bool
      is_subset_of s other = is_subset_of_loop (rounds s) other s (begin s)

      unfoldable pub is_superset_of : Set T → Set T → Option Bool
      is_superset_of s other = is_subset_of other s
