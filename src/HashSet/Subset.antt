-- ===== src/HashSet/Subset.antt =====
-- The loops over the elements in atomic_set.hpp: `to_vector`, `count_if`, `empty`, `is_subset_of`.
use cpp_lockfree_structures.Prelude.{
  ℕ, zero, suc, ◌+◌, ◌%◌, ◌<◌, ◌≤◌, ◌≡◌, ◌⊎◌, refl, sym, ap, ◌∙◌, subst, Bool, true, false, is_some,
  Option, none, some, List, [], ◌∷◌, ◌++◌, is_nil, inl, inr, ◌==◌, ==→eq, if◌then◌else◌, arith,
  Bool-cases,
}
use mathlib.Core.Option
use native.Mathlib.Nat.{mod-lt}
use cpp_lockfree_structures.HashSet.{
  Node, Set, empty, begin, next, at_end, to_vector_loop, rounds, to_vector, count_if_loop, count_if,
  find_node, contains, get_bucket_index, is_subset_of_loop, is_subset_of, is_superset_of,
}
use cpp_lockfree_structures.HashSet.Iterate.{at, active, elements, to_vector_lem, empty_lem}

module _ {ℓ} {T : Type ℓ} where
  abbrev pub number_of : (T → Bool) → List T → ℕ
  number_of pred [] = 0
  number_of pred (x ∷ xs) = let later = number_of pred xs in if pred x then suc later else later

  abbrev pub all_in : (T → Bool) → List T → Bool
  all_in p [] = true
  all_in p (x ∷ xs) = let later = all_in p xs in if p x then later else false

  -- A loop that goes on after an element comes to its end if the rest does.
  rest_of_loop :
      (x : T) (o : Option (List T)) (l : List T)
      → Option.map (λ m. x ∷ m) o ≡ some l
      → (m : List T) × (o ≡ some m) × (l ≡ x ∷ m)
  rest_of_loop x none l h = cc h
  rest_of_loop x (some m) l h = (m, refl, cc h)

  first_round :
      (b : Bool) (o : Option (List T)) (l : List T)
      → (if b then some [] else o) ≡ some l
      → ((b ≡ true) × (l ≡ [])) ⊎ ((b ≡ false) × (o ≡ some l))
  first_round true o l h = inl (refl, cc h)
  first_round false o l h = inr (refl, h)

  counted_with :
      (pred : T → Bool) (n k : ℕ) (s : Set T) (b : ℕ) (current : List (Node T)) (l : List T)
      → to_vector_loop n s (at b current) ≡ some l
      → count_if_loop n pred k s (at b current) ≡ some (k + number_of pred l)
  unfolding count_if_loop to_vector_loop
  counted_with pred zero k s b current l h = cc h
  counted_with pred (suc n) k s b [] l h = elim (first_round (at_end s (at b [])) none l h) [
    | inl (e, f) ↦ rw (e, f) (ap some (omega arith))
    | inr (e, f) ↦ cc f
  ]
  counted_with pred (suc n) k s b (c ∷ rest) l h =
      let it = next s (at b (c ∷ rest)) in
      let later = to_vector_loop n s it in
      elim (first_round (at_end s (at b (c ∷ rest))) (Option.map (λ m. c.item ∷ m) later) l h) [
        | inl (e, f) ↦ rw (e, f) (ap some (omega arith))
        | inr (e, f) ↦
            let g = rest_of_loop c.item later l f in
            rw (e, g.2)
              (elim (Bool-cases (pred c.item)) [
                | inl p ↦ rw p (
                    counted_with pred n (suc k) s it.bucket_index it.current g.0 g.1
                    ∙ ap some (omega arith))
                | inr p ↦ rw p (counted_with pred n k s it.bucket_index it.current g.0 g.1)
              ])
      ]

  count_lem :
      (pred : T → Bool) (s : Set T)
      → 0 < s.bucket_count
      → count_if pred s ≡ some (number_of pred (elements s.bucket_count 0 s))
  unfolding count_if to_vector
  count_lem pred s h =
      let it = begin s in
      counted_with pred (rounds s) 0 s it.bucket_index it.current (elements s.bucket_count 0 s)
        (to_vector_lem s h)
      ∙ ap some (omega arith)

  all_append :
      (p : T → Bool) (l m : List T)
      → all_in p (l ++ m) ≡ true
      → (all_in p l ≡ true) × (all_in p m ≡ true)
  all_append p [] m a = (refl, a)
  all_append p (x ∷ l) m a = elim (Bool-cases (p x)) [
    | inl e ↦ let ih = all_append p l m (ground (arith, a, e)) in (rw e ih.0, ih.1)
    | inr e ↦ absurd (ground (arith, a, e))
  ]

  module _ (same : T → T → Bool) (hash : T → ℕ) where
    subset_with :
        (n : ℕ) (other s : Set T) (b : ℕ) (current : List (Node T)) (l : List T)
        → to_vector_loop n s (at b current) ≡ some l
        → is_subset_of_loop same hash n other s (at b current)
          ≡ some (all_in (λ x. contains same hash x other) l)
    unfolding is_subset_of_loop to_vector_loop
    subset_with zero other s b current l h = cc h
    subset_with (suc n) other s b [] l h = elim (first_round (at_end s (at b [])) none l h) [
      | inl (e, f) ↦ rw (e, f) refl
      | inr (e, f) ↦ cc f
    ]
    subset_with (suc n) other s b (c ∷ rest) l h =
        let it = next s (at b (c ∷ rest)) in
        let later = to_vector_loop n s it in
        elim (first_round (at_end s (at b (c ∷ rest))) (Option.map (λ m. c.item ∷ m) later) l h) [
          | inl (e, f) ↦ rw (e, f) refl
          | inr (e, f) ↦
              let g = rest_of_loop c.item later l f in
              rw (e, g.2)
                (elim (Bool-cases (contains same hash c.item other)) [
                  | inl p ↦ rw p (subset_with n other s it.bucket_index it.current g.0 g.1)
                  | inr p ↦ rw p refl
                ])
        ]

    subset_lem :
        (s other : Set T)
        → 0 < s.bucket_count
        → is_subset_of same hash s other
          ≡ some (all_in (λ x. contains same hash x other) (elements s.bucket_count 0 s))
    unfolding is_subset_of to_vector
    subset_lem s other h =
        let it = begin s in
        subset_with (rounds s) other s it.bucket_index it.current (elements s.bucket_count 0 s)
          (to_vector_lem s h)

    -- On a set with a bucket, the loops with an iterator come to `end()` within one round more than there
    -- are nodes, and dereference no iterator without a node: `to_vector` lists the elements that are in,
    -- bucket by bucket, `count_if` counts those that satisfy the predicate, and `is_subset_of` answers
    -- whether the other set has them all; `empty` answers whether there are none.
    pub loops_over_elements :
        (pred : T → Bool) (s other : Set T)
        → 0 < s.bucket_count
        → (let l = elements s.bucket_count 0 s in
            (to_vector s ≡ some l)
            × (count_if pred s ≡ some (number_of pred l))
            × (empty s ≡ is_nil l)
            × (is_subset_of same hash s other ≡ some (all_in (λ x. contains same hash x other) l)))
    unfolding empty
    loops_over_elements pred s other h =
        (to_vector_lem s h, count_lem pred s h, empty_lem s.bucket_count 0 s, subset_lem s other h)

    module _ (compatible : (x y : T) → same x y ≡ true → hash x ≡ hash y)
        (transitive : (x y z : T) → same x y ≡ true → same y z ≡ true → same x z ≡ true) where
      found_same :
          (x y : T) (chain : List (Node T))
          → same y x ≡ true
          → is_some (find_node same y chain) ≡ true
          → is_some (find_node same x chain) ≡ true
      unfolding find_node
      found_same x y [] d f = f
      found_same x y (c ∷ rest) d f =
          ground (arith, f, d, transitive c.item y x, found_same x y rest d)

      carried_over :
          (x y : T) (s : Set T)
          → same y x ≡ true
          → contains same hash y s ≡ true
          → contains same hash x s ≡ true
      unfolding contains get_bucket_index
      carried_over x y s d f =
          let e = compatible y x d in
          found_same x y (s.buckets (hash x % s.bucket_count)) d
            (subst (λ h. is_some (find_node same y (s.buckets (h % s.bucket_count))) ≡ true) e f)

      in_chain :
          (x : T) (p : T → Bool) (chain : List (Node T))
          → is_some (find_node same x chain) ≡ true
          → all_in p (active chain) ≡ true
          → (y : T) × (same y x ≡ true) × (p y ≡ true)
      unfolding find_node active
      in_chain x p [] f a = absurd (cc f)
      in_chain x p (c ∷ rest) f a = elim (Bool-cases c.deleted) [
        | inl e ↦ in_chain x p rest (ground (arith, f, e)) (ground (arith, a, e))
        | inr e ↦ elim (Bool-cases (same c.item x)) [
          | inl d ↦ (c.item, d, ground (arith, a, e))
          | inr d ↦ in_chain x p rest (ground (arith, f, e, d)) (ground (arith, a, e))
        ]
      ]

      in_buckets :
          (p : T → Bool) (n i j : ℕ) (s : Set T)
          → all_in p (elements n i s) ≡ true
          → i ≤ j
          → j < i + n
          → all_in p (active (s.buckets j)) ≡ true
      unfolding elements
      in_buckets p zero i j s a h g = absurd (omega arith)
      in_buckets p (suc n) i j s a h g =
          let b = all_append p (active (s.buckets i)) (elements n (suc i) s) a in
          elim (Bool-cases (j == i)) [
            | inl e ↦ rw (==→eq j i e) b.0
            | inr e ↦ in_buckets p n (suc i) j s b.1 (grind (arith, h, e)) (omega (arith, g))
          ]

      -- If `is_subset_of` answers true, then every value that the set has the other set has too; and
      -- `is_superset_of` is the same question the other way round. The comparator is transitive, and
      -- values that are the same have the same hash.
      pub subset_has_all :
          (x : T) (s other : Set T)
          → 0 < s.bucket_count
          → is_subset_of same hash s other ≡ some true
          → contains same hash x s ≡ true
          → (contains same hash x other ≡ true) × (is_superset_of same hash other s ≡ some true)
      unfolding contains get_bucket_index is_superset_of
      subset_has_all x s other h t f =
          let p = (λ (y : T). contains same hash y other) in
          let j = hash x % s.bucket_count in
          let a =
            in_buckets p s.bucket_count 0 j s
              (Option.some-injective _ true (sym (subset_lem s other h) ∙ t)) (omega arith)
              (omega (arith, mod-lt (hash x) h)) in
          let y = in_chain x p (s.buckets j) f a in (carried_over x y.0 other y.1 y.2, t)
