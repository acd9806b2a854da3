-- ===== src/LinkedList.antt =====
-- include/lockfree/atomic_linkedlist.hpp: `AtomicLinkedList<T, Compare>`, each operation run without
-- interference. `same` is the comparator, called as the code calls it: on a node's data, then the
-- item. The nodes from `head_` on are a list. `weak` lists which compare-exchanges of a call fail
-- spuriously; one that is tried on a pointer that has changed fails whatever `weak` says.
pub mod Search
pub mod Refine
mod Examples
use cpp_lockfree_structures.Prelude.{
  ℕ, zero, suc, Bool, true, false, not, ◌&&◌, Option, none, some, List, [], ◌∷◌, ◌++◌,
  if◌then◌else◌, add64, sub64,
}
use cpp_lockfree_structures.Outcomes.{head_fails, tail}

pub record Node {ℓ} (A : Type ℓ) : Type ℓ where
  pub data_ : A
  pub marked : Bool

pub record LinkedList {ℓ} (A : Type ℓ) : Type ℓ where
  pub head : List (Node A)
  pub count : ℕ

-- What `search` returns, and what it leaves: the nodes from where the walk stood, whether a node
-- was found, whether the previous node's `next` is the returned node, and the outcomes not used.
pub record SearchResult {ℓ} (A : Type ℓ) : Type ℓ where
  pub nodes : List (Node A)
  pub found : Bool
  pub linked : Bool
  pub weak : List Bool

abbrev pub max_attempts : ℕ
max_attempts = 1000

module _ {ℓ} {A : Type ℓ} where
  pub init : LinkedList A
  init = record { head = []; count = 0 }

  -- The walk has passed an unmarked node, or a marked one that it could not unlink.
  pub passed : Node A → SearchResult A → SearchResult A
  passed c s = record s { nodes = c ∷ s.nodes }

  module _ (same : A → A → Bool) where
    -- The loop of `search`, before a node that `prev` points at (`linked`) or does not.
    pub search_loop : Bool → List Bool → A → List (Node A) → SearchResult A
    search_loop linked weak x [] = record {
      nodes = [];
      found = false;
      linked = linked;
      weak = weak;
    }
    search_loop linked [] x (c ∷ rest) =
        let unlink = search_loop true [] x rest in
        let blocked = passed c (search_loop false [] x rest) in
        let next = passed c unlink in
        if c.marked
        then (if linked then unlink else blocked)
        else if same c.data_ x
        then record { nodes = c ∷ rest; found = true; linked = linked; weak = [] }
        else next
    search_loop linked (fails ∷ weak) x (c ∷ rest) =
        let unlink = search_loop true weak x rest in
        let failed = passed c (search_loop false weak x rest) in
        let blocked = passed c (search_loop false (fails ∷ weak) x rest) in
        let next = passed c (search_loop true (fails ∷ weak) x rest) in
        if c.marked
        then (if linked then (if fails then failed else unlink) else blocked)
        else if same c.data_ x
        then record { nodes = c ∷ rest; found = true; linked = linked; weak = fails ∷ weak }
        else next

    pub search : List Bool → A → LinkedList A → SearchResult A
    search weak x t = search_loop true weak x t.head

    -- What `insert` does once `search` has found nothing: it links the new node behind the last
    -- one.
    pub link : A → LinkedList A → LinkedList A
    link x t = record {
      head = t.head ++ (record { data_ = x; marked = false }) ∷ [];
      count = add64 t.count 1;
    }

    -- The loop of `insert`, with the attempts that are left.
    pub insert_loop : ℕ → List Bool → A → LinkedList A → Bool × LinkedList A
    insert_loop zero weak x t = (false, t)
    insert_loop (suc n) weak x t =
        let s = search weak x t in
        let helped = record t { head = s.nodes } in
        let retry = insert_loop n s.weak x helped in
        let retry_weak = insert_loop n (tail s.weak) x helped in
        if s.found
        then (false, helped)
        else if s.linked
        then (if head_fails s.weak then retry_weak else (true, link x helped))
        else retry

    -- `insert(const T&)`, `insert(T&&)` and `emplace`.
    pub insert : List Bool → A → LinkedList A → Bool × LinkedList A
    insert = insert_loop max_attempts

    -- The mark that `remove` sets: on the first unmarked node of the item.
    pub mark : A → List (Node A) → List (Node A)
    mark x [] = []
    mark x (c ∷ rest) =
        let later = mark x rest in
        if not c.marked && same c.data_ x then record c { marked = true } ∷ rest else c ∷ later

    pub remove : List Bool → A → LinkedList A → Bool × LinkedList A
    remove weak x t =
        let s = search weak x t in
        if s.found
        then (true, record { head = mark x s.nodes; count = sub64 t.count 1 })
        else (false, record t { head = s.nodes })

    pub find_loop : A → List (Node A) → Bool
    find_loop x [] = false
    find_loop x (c ∷ rest) =
        let later = find_loop x rest in if not c.marked && same c.data_ x then true else later

    -- `find` and `contains`.
    pub find : A → LinkedList A → Bool
    find x t = find_loop x t.head

  pub empty_loop : List (Node A) → Bool
  empty_loop [] = true
  empty_loop (c ∷ rest) = if c.marked then empty_loop rest else false

  pub empty : LinkedList A → Bool
  empty t = empty_loop t.head

  pub size : LinkedList A → ℕ
  size t = t.count

  -- The `while` loops of the iterator: the nodes from the first unmarked one on.
  pub skip_marked : List (Node A) → List (Node A)
  skip_marked [] = []
  skip_marked (c ∷ rest) = if c.marked then skip_marked rest else c ∷ rest

  -- `begin`, and `operator++`.
  pub begin : LinkedList A → List (Node A)
  begin t = skip_marked t.head

  pub next : List (Node A) → List (Node A)
  next [] = []
  next (c ∷ rest) = skip_marked rest
