-- ===== src/HashSet/Sim.antt =====
-- The set of atomic_set.hpp as the map of atomic_hashmap.hpp from its elements to nothing: the two
-- files have the same chains and the same walks.
use cpp_lockfree_structures.Prelude.{
  ℕ, zero, suc, ◌%◌, ◌≡◌, refl, sym, ap, Bool, true, false, not, ◌&&◌, List, [], ◌∷◌, map, inl, inr,
  ◌==◌, if◌then◌else◌, add64, sub64, update, Bool-cases, Option-cases,
}
use mathlib.Core.Option
use cpp_lockfree_structures.HashMap
use cpp_lockfree_structures.HashMap.{HashMap}
use cpp_lockfree_structures.HashSet.{
  Node, Set, find_node, mark, get_bucket_index, contains, link, link_loop, insert, erase,
  max_attempts,
}

module _ {ℓ} {T : Type ℓ} where
  abbrev pub to_node : Node T → HashMap.Node {ℓ, 0} T Unit
  to_node c = record { key = c.item; value = tt; deleted = c.deleted }

  abbrev pub to_chain : List (Node T) → List (HashMap.Node {ℓ, 0} T Unit)
  to_chain chain = map to_node chain

  abbrev pub to_map : Set T → HashMap {ℓ, 0} T Unit
  to_map s = record {
    buckets = λ i. to_chain (s.buckets i);
    count = s.count;
    bucket_count = s.bucket_count;
  }

  map-if :
      (b : Bool) (l r : List (Node T))
      → to_chain (if b then l else r) ≡ (if b then to_chain l else to_chain r)
  map-if true l r = refl
  map-if false l r = refl

  -- A set whose bucket `i` is written, as a map.
  to_map-update :
      (s : Set T) (i n : ℕ) (chain : List (Node T))
      → to_map (record s { buckets = update s.buckets i chain; count = n })
        ≡ record (to_map s) { buckets = update (to_map s).buckets i (to_chain chain); count = n }
  to_map-update s i n chain = λ t. record {
    buckets = λ j. map-if (j == i) chain (s.buckets j) t;
    count = n;
    bucket_count = s.bucket_count;
  }

  module _ (same : T → T → Bool) where
    found_in :
        (x : T) (chain : List (Node T))
        → HashMap.find_node same x (to_chain chain) ≡ Option.map (λ y. tt) (find_node same x chain)
    unfolding HashMap.find_node find_node
    found_in x [] = refl
    found_in x (c ∷ rest) = elim (Bool-cases (not c.deleted && same c.item x)) [
      | inl e ↦ simp e refl
      | inr e ↦ simp e (found_in x rest)
    ]

    marked_in :
        (x : T) (chain : List (Node T))
        → HashMap.mark same x (to_chain chain) ≡ to_chain (mark same x chain)
    unfolding HashMap.mark mark
    marked_in x [] = refl
    marked_in x (c ∷ rest) = elim (Bool-cases (not c.deleted && same c.item x)) [
      | inl e ↦ simp e refl
      | inr e ↦ simp e (ap (λ l. to_node c ∷ l) (marked_in x rest))
    ]

    module _ (hash : T → ℕ) where
      abbrev pub to_result : Bool × Set T → Bool × HashMap {ℓ, 0} T Unit
      to_result r = (r.0, to_map r.1)

      pub contains-to_map :
          (x : T) (s : Set T) → HashMap.contains same hash x (to_map s) ≡ contains same hash x s
      unfolding HashMap.contains HashMap.get_bucket_index contains get_bucket_index
      contains-to_map x s =
          let i = hash x % s.bucket_count in
          elim (Option-cases (find_node same x (s.buckets i))) [
            | inl e ↦ rw (HashMap.contains, contains, found_in x (s.buckets i), e) refl
            | inr (y, e) ↦ rw (HashMap.contains, contains, found_in x (s.buckets i), e) refl
          ]

      pub link-to_map :
          (x : T) (s : Set T)
          → HashMap.link same hash x tt (to_map s)
            ≡ to_map (link same hash (get_bucket_index same hash x s) x s)
      unfolding HashMap.link HashMap.get_bucket_index link get_bucket_index
      link-to_map x s =
          let i = hash x % s.bucket_count in
          sym (
            to_map-update s i (add64 s.count 1)
              ((record { item = x; deleted = false }) ∷ s.buckets i))

      loop-to_map :
          (n : ℕ) (weak : List Bool) (x : T) (s : Set T)
          → HashMap.link_loop same hash n weak x tt (to_map s)
            ≡ to_result (link_loop same hash n weak (get_bucket_index same hash x s) x s)
      unfolding HashMap.link_loop link_loop
      loop-to_map zero weak x s = refl
      loop-to_map (suc n) [] x s = ap (λ m. (true, m)) (link-to_map x s)
      loop-to_map (suc n) (true ∷ weak) x s = loop-to_map n weak x s
      loop-to_map (suc n) (false ∷ weak) x s = ap (λ m. (true, m)) (link-to_map x s)

      pub insert-to_map :
          (weak : List Bool) (x : T) (s : Set T)
          → HashMap.insert same hash weak x tt (to_map s) ≡ to_result (insert same hash weak x s)
      unfolding HashMap.insert HashMap.get_bucket_index insert get_bucket_index
      insert-to_map weak x s =
          let i = hash x % s.bucket_count in
          elim (Option-cases (find_node same x (s.buckets i))) [
            | inl e ↦
                rw (HashMap.insert, insert, found_in x (s.buckets i), e)
                  (loop-to_map max_attempts weak x s)
            | inr (y, e) ↦ rw (HashMap.insert, insert, found_in x (s.buckets i), e) refl
          ]

      pub erase-to_map :
          (x : T) (s : Set T)
          → HashMap.erase same hash x (to_map s) ≡ to_result (erase same hash x s)
      unfolding HashMap.erase HashMap.get_bucket_index erase get_bucket_index
      erase-to_map x s =
          let i = hash x % s.bucket_count in
          elim (Option-cases (find_node same x (s.buckets i))) [
            | inl e ↦ rw (HashMap.erase, erase, found_in x (s.buckets i), e) refl
            | inr (y, e) ↦
                rw (HashMap.erase, erase, found_in x (s.buckets i), e, marked_in x (s.buckets i))
                  (ap (λ m. (true, m))
                    (sym (to_map-update s i (sub64 s.count 1) (mark same x (s.buckets i)))))
          ]
