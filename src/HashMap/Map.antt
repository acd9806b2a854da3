-- ===== src/HashMap/Map.antt =====
-- `insert`, `find`, `contains` and `erase` of atomic_hashmap.hpp as operations on a map.
use cpp_lockfree_structures.Prelude.{
  ℕ, zero, suc, ◌%◌, ◌<◌, ◌≡◌, refl, sym, ap, Bool, true, false, not, ◌&&◌, none, some, List, [],
  ◌∷◌, inl, inr, eq→==, ne→==, if◌then◌else◌, add64, arith, Bool-cases, Option-cases,
}
use native.Mathlib.Decide.{ℕ_discrete}
use cpp_lockfree_structures.BoundedQueue.{failures}
use cpp_lockfree_structures.HashMap.{
  HashMap, max_attempts, max_attempts_move, get_bucket_index, find_node, find, contains, link,
  link_loop, insert, move_loop, insert_move,
}
use cpp_lockfree_structures.HashMap.Chain.{copies}

module _ {ℓ κ} {K : Type ℓ} {V : Type κ} (same : K → K → Bool) (hash : K → ℕ) where
  -- How many nodes of a key are in its bucket and not deleted.
  unfoldable pub occurrences : K → HashMap K V → ℕ
  occurrences k m = copies same k (m.buckets (hash k % m.bucket_count))

  -- An insertion of `v` under `k` into `m` answers whether `k` was not found. Then `v` is found
  -- under every key that is the same, every other key is found as before, and the count is one
  -- more; else the map stays as it is.
  pub record Inserted (k : K) (v : V) (m : HashMap K V) (r : Bool × HashMap K V)
      : Type (ℓ ⊔ κ) where
    pub answer : r.0 ≡ not (contains same hash k m)
    pub values :
        (i : K)
        → find same hash i r.1
          ≡ (if not (contains same hash k m) && same k i then some v else find same hash i m)
    pub counted : r.1.count ≡ (if contains same hash k m then m.count else add64 m.count 1)

  pub link_loop_lem :
      (n : ℕ) (weak : List Bool) (k : K) (v : V) (m : HashMap K V)
      → failures weak < n
      → link_loop same hash n weak k v m ≡ (true, link same hash k v m)
  unfolding link_loop
  link_loop_lem zero weak k v m h = absurd (omega arith)
  link_loop_lem (suc n) [] k v m h = refl
  link_loop_lem (suc n) (true ∷ weak) k v m h = link_loop_lem n weak k v m (omega arith)
  link_loop_lem (suc n) (false ∷ weak) k v m h = refl

  move_loop_found :
      (n : ℕ) (weak : List Bool) (k : K) (v w : V) (m : HashMap K V)
      → find same hash k m ≡ some w
      → move_loop same hash n weak k v m ≡ (false, m)
  unfolding move_loop find
  move_loop_found zero weak k v w m e = refl
  move_loop_found (suc n) [] k v w m e = rw (e, move_loop) refl
  move_loop_found (suc n) (fails ∷ weak) k v w m e = rw (e, move_loop) refl

  move_loop_absent :
      (n : ℕ) (weak : List Bool) (k : K) (v : V) (m : HashMap K V)
      → failures weak < n
      → find same hash k m ≡ none
      → move_loop same hash n weak k v m ≡ (true, link same hash k v m)
  unfolding move_loop find
  move_loop_absent zero weak k v m h e = absurd (omega arith)
  move_loop_absent (suc n) [] k v m h e = rw (e, move_loop) refl
  move_loop_absent (suc n) (true ∷ weak) k v m h e =
      rw (e, move_loop) (move_loop_absent n weak k v m (omega arith) e)
  move_loop_absent (suc n) (false ∷ weak) k v m h e = rw (e, move_loop) refl

  module _ (compatible : (k i : K) → same k i ≡ true → hash k ≡ hash i) where
    find-link :
        (k i : K) (v : V) (m : HashMap K V)
        → find same hash i (link same hash k v m)
          ≡ (if same k i then some v else find same hash i m)
    unfolding find link get_bucket_index find_node
    find-link k i v m = elim (ℕ_discrete (hash i % m.bucket_count) (hash k % m.bucket_count)) [
      | yes e ↦ rw (eq→== _ _ e, e) refl
      | no d ↦ elim (Bool-cases (same k i)) [
        | inl s ↦ absurd (d (ap (λ h. h % m.bucket_count) (sym (compatible k i s))))
        | inr s ↦ rw (ne→== _ _ d, s) refl
      ]
    ]

    Inserted-refused :
        (k : K) (v w : V) (m : HashMap K V)
        → find same hash k m ≡ some w
        → Inserted k v m (false, m)
    unfolding find contains
    Inserted-refused k v w m e = record {
      answer = rw (e, contains) refl;
      values = λ i. rw (e, contains) refl;
      counted = rw (e, contains) refl;
    }

    Inserted-linked :
        (k : K) (v : V) (m : HashMap K V)
        → find same hash k m ≡ none
        → Inserted k v m (true, link same hash k v m)
    unfolding find contains link
    Inserted-linked k v m e = record {
      answer = rw (e, contains) refl;
      values = λ i. rw (e, contains) (find-link k i v m);
      counted = rw (e, contains) refl;
    }

    insert_lvalue :
        (weak : List Bool) (k : K) (v : V) (m : HashMap K V)
        → failures weak < 100
        → Inserted k v m (insert same hash weak k v m)
    unfolding insert find
    insert_lvalue weak k v m h = elim (Option-cases (find same hash k m)) [
      | inl e ↦ rw (e, insert, link_loop_lem max_attempts weak k v m h) (Inserted-linked k v m e)
      | inr (w, e) ↦ rw (e, insert) (Inserted-refused k v w m e)
    ]

    insert_rvalue :
        (weak : List Bool) (k : K) (v : V) (m : HashMap K V)
        → failures weak < 1000
        → Inserted k v m (insert_move same hash weak k v m)
    unfolding insert_move
    insert_rvalue weak k v m h = elim (Option-cases (find same hash k m)) [
      | inl e ↦ rw (move_loop_absent max_attempts_move weak k v m h e) (Inserted-linked k v m e)
      | inr (w, e) ↦
          rw (move_loop_found max_attempts_move weak k v w m e) (Inserted-refused k v w m e)
    ]

    -- Both overloads of `insert` answer whether the key was not found. Then the value is found under
    -- every key that is the same, every other key is found as before, and the count is one more;
    -- else the map stays as it is. Keys that are the same have the same hash, and fewer than 100
    -- compare-exchanges fail for an lvalue, fewer than 1000 for an rvalue.
    pub insert_into_map :
        (weak weak' : List Bool) (k : K) (v : V) (m : HashMap K V)
        → failures weak < 100
        → failures weak' < 1000
        → Inserted k v m (insert same hash weak k v m)
          × Inserted k v m (insert_move same hash weak' k v m)
    insert_into_map weak weak' k v m h h' =
        (insert_lvalue weak k v m h, insert_rvalue weak' k v m h')
