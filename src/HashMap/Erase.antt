-- ===== src/HashMap/Erase.antt =====
-- `erase` of atomic_hashmap.hpp, and how many nodes a key has in its chain.
use cpp_lockfree_structures.Prelude.{
  ℕ, suc, ◌-◌, ◌%◌, ◌<◌, ◌≤◌, ◌≡◌, refl, sym, ap, Bool, true, false, none, some, inl, inr, eq→==,
  ne→==, if◌then◌else◌, sub64, arith, update, Bool-cases, Option-cases,
}
use native.Mathlib.Decide.{ℕ_discrete}
use cpp_lockfree_structures.HashMap.{
  HashMap, get_bucket_index, find_node, find, contains, link, mark, erase,
}
use cpp_lockfree_structures.HashMap.Chain.{
  copies, find_node-copies, copies-mark, copies-mark_other, find_node-mark,
}
use cpp_lockfree_structures.HashMap.Map.{occurrences}

module _ {ℓ κ} {K : Type ℓ} {V : Type κ} (same : K → K → Bool) (hash : K → ℕ) where
  pub occurrences-none :
      (k : K) (m : HashMap K V) → find same hash k m ≡ none → occurrences same hash k m ≡ 0
  unfolding find occurrences get_bucket_index
  occurrences-none k m e = find_node-copies same k (m.buckets (hash k % m.bucket_count)) none e

  pub occurrences-zero :
      (k : K) (m : HashMap K V) → occurrences same hash k m ≡ 0 → contains same hash k m ≡ false
  unfolding contains find occurrences get_bucket_index
  occurrences-zero k m z = elim (Option-cases (find same hash k m)) [
    | inl e ↦ rw (e, contains) refl
    | inr (v, e) ↦ absurd (omega (arith, z, occurrences-some v e))
  ]
    where
      occurrences-some : (v : V) → find same hash k m ≡ some v → 0 < occurrences same hash k m
      occurrences-some v e =
          find_node-copies same k (m.buckets (hash k % m.bucket_count)) (some v) e

  pub occurrences-erase :
      (k i : K) (m : HashMap K V)
      → (occurrences same hash k (erase same hash k m).1 ≡ occurrences same hash k m - 1)
        × (occurrences same hash i (erase same hash k m).1 ≤ occurrences same hash i m)
  unfolding erase occurrences get_bucket_index find
  occurrences-erase k i m = elim (Option-cases (find same hash k m)) [
    | inl e ↦ rw (e, erase) (omega (arith, occurrences-none k m e), omega arith)
    | inr (v, e) ↦ rw (e, erase) (marked_self, marked_other)
  ]
    where
      marked_self :
          copies same k (
            update m.buckets
              (hash k % m.bucket_count)
              (mark same k (m.buckets (hash k % m.bucket_count)))
              (hash k % m.bucket_count))
          ≡ copies same k (m.buckets (hash k % m.bucket_count)) - 1
      marked_self =
          rw (eq→== (hash k % m.bucket_count) (hash k % m.bucket_count) refl)
            (copies-mark same k (m.buckets (hash k % m.bucket_count)))

      marked_other :
          copies same i (
            update m.buckets
              (hash k % m.bucket_count)
              (mark same k (m.buckets (hash k % m.bucket_count)))
              (hash i % m.bucket_count))
          ≤ copies same i (m.buckets (hash i % m.bucket_count))
      marked_other = elim (ℕ_discrete (hash i % m.bucket_count) (hash k % m.bucket_count)) [
        | yes d ↦
            rw (eq→== _ _ d, d) (copies-mark_other same i k (m.buckets (hash k % m.bucket_count)))
        | no d ↦ rw (ne→== _ _ d) (omega arith)
      ]

  pub occurrences-link :
      ((k i : K) → same k i ≡ true → hash k ≡ hash i)
      → (k i : K) (v : V) (m : HashMap K V)
      → occurrences same hash i (link same hash k v m)
        ≡ (if same k i then suc (occurrences same hash i m) else occurrences same hash i m)
  unfolding occurrences link get_bucket_index copies
  occurrences-link compatible k i v m =
      elim (ℕ_discrete (hash i % m.bucket_count) (hash k % m.bucket_count)) [
        | yes e ↦ rw (eq→== _ _ e, e) refl
        | no d ↦ elim (Bool-cases (same k i)) [
          | inl s ↦ absurd (d (ap (λ h. h % m.bucket_count) (sym (compatible k i s))))
          | inr s ↦ rw (ne→== _ _ d, s) refl
        ]
      ]

  -- `erase` answers whether the key is found, and then one node of the key fewer is in and the
  -- count is one less; every key that is not the same is found as before. Two keys that are the
  -- same as a third are the same.
  pub erase_from_map :
      ((j k i : K) → same j k ≡ true → same j i ≡ true → same k i ≡ true)
      → (k : K) (m : HashMap K V)
      → ((erase same hash k m).0 ≡ contains same hash k m)
        × (occurrences same hash k (erase same hash k m).1 ≡ occurrences same hash k m - 1)
        × ((i : K)
            → same k i ≡ false
            → find same hash i (erase same hash k m).1 ≡ find same hash i m)
        × ((erase same hash k m).1.count
            ≡ (if contains same hash k m then sub64 m.count 1 else m.count))
  unfolding erase find contains get_bucket_index
  erase_from_map alike k m = elim (Option-cases (find same hash k m)) [
    | inl e ↦ (
      rw (e, erase, contains) refl,
      (occurrences-erase k k m).0,
      (λ i d. rw (e, erase) refl),
      rw (e, erase, contains) refl,
    )
    | inr (v, e) ↦ (
      rw (e, erase, contains) refl,
      (occurrences-erase k k m).0,
      (λ i d. rw (e, erase) (found_after i d)),
      rw (e, erase, contains) refl,
    )
  ]
    where
      found_after :
          (i : K)
          → same k i ≡ false
          → find_node same i (
              update m.buckets
                (hash k % m.bucket_count)
                (mark same k (m.buckets (hash k % m.bucket_count)))
                (hash i % m.bucket_count))
            ≡ find_node same i (m.buckets (hash i % m.bucket_count))
      found_after i d = elim (ℕ_discrete (hash i % m.bucket_count) (hash k % m.bucket_count)) [
        | yes e ↦
            rw (eq→== _ _ e, e)
              (find_node-mark same alike i k (m.buckets (hash k % m.bucket_count)) d)
        | no e ↦ rw (ne→== _ _ e) refl
      ]
