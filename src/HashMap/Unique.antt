-- ===== src/HashMap/Unique.antt =====
-- When atomic_hashmap.hpp keeps a key once, and how two threads that insert it make it twice.
use cpp_lockfree_structures.Prelude.{
  ℕ, ◌%◌, ◌<◌, ◌≤◌, ◌≡◌, refl, sym, ◌∙◌, Bool, true, false, none, List, [], ◌∷◌, inl, inr, arith,
  Bool-cases, Option-cases,
}
use cpp_lockfree_structures.BoundedQueue.{failures}
use cpp_lockfree_structures.HashMap.{
  Node, HashMap, max_attempts, find, contains, link, link_loop, insert, erase,
}
use cpp_lockfree_structures.HashMap.Chain.{copies}
use cpp_lockfree_structures.HashMap.Map.{occurrences, link_loop_lem}
use cpp_lockfree_structures.HashMap.Erase.{
  occurrences-none, occurrences-zero, occurrences-erase, occurrences-link,
}

module _ {ℓ κ} {K : Type ℓ} {V : Type κ} (same : K → K → Bool) (hash : K → ℕ) where
  -- No key has two nodes that are not deleted.
  unfoldable pub IsUnique : HashMap K V → Type ℓ
  IsUnique m = (i : K) → occurrences same hash i m ≤ 1

  module _ (compatible : (k i : K) → same k i ≡ true → hash k ≡ hash i)
      (symmetric : (i j : K) → same i j ≡ true → same j i ≡ true)
      (transitive : (i j k : K) → same i j ≡ true → same j k ≡ true → same i k ≡ true) where
    copies-same :
        (k i : K) (chain : List (Node K V))
        → same k i ≡ true
        → copies same i chain ≡ copies same k chain
    unfolding copies
    copies-same k i [] s = refl
    copies-same k i (c ∷ rest) s = ground (
      arith,
      s,
      symmetric k i,
      transitive c.key i k,
      transitive c.key k i,
      copies-same k i rest s,
    )

    occurrences-same :
        (k i : K) (m : HashMap K V)
        → same k i ≡ true
        → occurrences same hash i m ≡ occurrences same hash k m
    unfolding occurrences
    occurrences-same k i m s =
        rw (sym (compatible k i s)) (copies-same k i (m.buckets (hash k % m.bucket_count)) s)

    link-IsUnique :
        (k : K) (v : V) (m : HashMap K V)
        → find same hash k m ≡ none
        → IsUnique m
        → IsUnique (link same hash k v m)
    unfolding IsUnique
    link-IsUnique k v m e u i = elim (Bool-cases (same k i)) [
      | inl s ↦
          rw (occurrences-link same hash compatible k i v m, s)
            (omega (arith, occurrences-same k i m s, occurrences-none same hash k m e))
      | inr s ↦ rw (occurrences-link same hash compatible k i v m, s) (u i)
    ]

    -- On a map that has every key at most once, `insert`, with fewer than 100 failing compare-
    -- exchanges, and `erase` keep that so, and after `erase` the key is not found. The
    -- comparator is symmetric and transitive, and keys that are the same have the same hash.
    pub insert-erase-IsUnique :
        (weak : List Bool) (k : K) (v : V) (m : HashMap K V)
        → failures weak < 100
        → IsUnique m
        → IsUnique (insert same hash weak k v m).1
          × IsUnique (erase same hash k m).1
          × (contains same hash k (erase same hash k m).1 ≡ false)
    unfolding insert find IsUnique
    insert-erase-IsUnique weak k v m h u = (
      elim (Option-cases (find same hash k m)) [
        | inl e ↦
            rw (e, insert, link_loop_lem same hash max_attempts weak k v m h)
              (link-IsUnique k v m e u)
        | inr (w, e) ↦ rw (e, insert) u
      ],
      (λ i. omega (arith, u i, (occurrences-erase same hash k i m).1)),
      occurrences-zero same hash k (erase same hash k m).1
          (omega (arith, u k, (occurrences-erase same hash k k m).0)),
    )

  -- Two threads insert the same new key, and each looks for it before the other links its node:
  -- then both loops return true, if fewer than 100 compare-exchanges fail in each, the key is
  -- in twice, and after one `erase` it is still there. Keys that are the same have the same
  -- hash, and the key is the same as itself.
  pub key_inserted_twice :
      ((k i : K) → same k i ≡ true → hash k ≡ hash i)
      → (weak weak' : List Bool) (k : K) (v w : V) (m : HashMap K V) → same k k ≡ true
      → failures weak < 100
      → failures weak' < 100
      → find same hash k m ≡ none
      → (m1 : HashMap K V) × (m2 : HashMap K V) × (link_loop same hash max_attempts weak k v m
          ≡ (true, m1))
        × (link_loop same hash max_attempts weak' k w m1 ≡ (true, m2))
        × (occurrences same hash k m2 ≡ 2)
        × (occurrences same hash k (erase same hash k m2).1 ≡ 1)
  key_inserted_twice compatible weak weak' k v w m s h h' e = (
    link same hash k v m,
    link same hash k w (link same hash k v m),
    link_loop_lem same hash max_attempts weak k v m h,
    link_loop_lem same hash max_attempts weak' k w (link same hash k v m) h',
    twice,
    (occurrences-erase same hash k k (link same hash k w (link same hash k v m))).0
        ∙ omega (arith, twice),
  )
    where
      twice : occurrences same hash k (link same hash k w (link same hash k v m)) ≡ 2
      twice =
          rw
            (
              occurrences-link same hash compatible k k w (link same hash k v m),
              s,
              occurrences-link same hash compatible k k v m,
              s,
              occurrences-none same hash k m e,
            )
            refl
