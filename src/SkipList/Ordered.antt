-- ===== src/SkipList/Ordered.antt =====
-- The ordered map that atomic_skiplist.hpp implements: a list of entries with ascending keys.
use cpp_lockfree_structures.Prelude.{
  ◌≡◌, refl, sym, ap, ◌∙◌, Bool, true, false, ◌||◌, Option, none, some, List, [], ◌∷◌, ◌++◌, inl,
  inr, if◌then◌else◌, arith, Bool-cases,
}
use cpp_lockfree_structures.Levels.Order.{IsStrictWeak}
use cpp_lockfree_structures.Levels.Place.{place}
use cpp_lockfree_structures.SkipList.{Entry, not_behind}
use cpp_lockfree_structures.SkipList.Keys.{
  right_false, not-false, then_case, else_case, same, differs, alike, unlike,
}

module _ {ℓ κ} {K : Type ℓ} {V : Type κ} (less : K → K → Bool) where
  -- Linear search for an equivalent key.
  unfoldable pub lookup : K → List (Entry K V) → Option V
  lookup k [] = none
  lookup k (e ∷ l) = let later = lookup k l in if less k e.0 || less e.0 k then later else some e.1

  -- The keys of `l` are greater than that of `e`.
  unfoldable pub AllAbove : Entry K V → List (Entry K V) → Type 0
  AllAbove e [] = Unit
  AllAbove e (f ∷ l) = (less e.0 f.0 ≡ true) × AllAbove e l

  -- The keys ascend.
  unfoldable pub IsStrict : List (Entry K V) → Type 0
  IsStrict [] = Unit
  IsStrict (e ∷ l) = AllAbove e l × IsStrict l

  pub IsStrict-split : (l m : List (Entry K V)) → IsStrict (l ++ m) → IsStrict m
  unfolding IsStrict
  IsStrict-split [] m h = h
  IsStrict-split (e ∷ l) m h = IsStrict-split l m h.1

  -- The entry of an equivalent key, taken out.
  unfoldable pub remove : K → List (Entry K V) → List (Entry K V)
  remove k [] = []
  remove k (e ∷ l) = let later = remove k l in if less k e.0 || less e.0 k then e ∷ later else l

  -- A new entry, where its key has none.
  unfoldable pub add : K → V → List (Entry K V) → List (Entry K V)
  add k v l = elim (lookup k l) [ none ↦ place (not_behind less k) (k, v) l | some u ↦ l ]

  pub add_absent :
      (k : K) (v : V) (l : List (Entry K V))
      → lookup k l ≡ none
      → add k v l ≡ place (not_behind less k) (k, v) l
  unfolding add
  add_absent k v l h = rw (add, h) refl

  pub add_present : (k : K) (v u : V) (l : List (Entry K V)) → lookup k l ≡ some u → add k v l ≡ l
  unfolding add
  add_present k v u l h = rw (add, h) refl

  pub remove_absent : (k : K) (l : List (Entry K V)) → lookup k l ≡ none → remove k l ≡ l
  unfolding lookup remove
  remove_absent k [] h = refl
  remove_absent k (e ∷ l) h = elim (Bool-cases (less k e.0 || less e.0 k)) [
    | inl d ↦ rw d (ap (λ m. e ∷ m) (remove_absent k l (sym (then_case (some e.1) d) ∙ h)))
    | inr d ↦ cc (sym (else_case (lookup k l) d) ∙ h)
  ]

  module _ (order : IsStrictWeak less) where
    remove-AllAbove :
        (k : K) (e : Entry K V) (l : List (Entry K V)) → AllAbove e l → AllAbove e (remove k l)
    unfolding remove AllAbove
    remove-AllAbove k e [] a = tt
    remove-AllAbove k e (f ∷ l) a = elim (Bool-cases (less k f.0 || less f.0 k)) [
      | inl d ↦ rw d (a.0, remove-AllAbove k e l a.1)
      | inr d ↦ rw d a.1
    ]

    pub remove-IsStrict : (k : K) (l : List (Entry K V)) → IsStrict l → IsStrict (remove k l)
    unfolding remove IsStrict
    remove-IsStrict k [] s = tt
    remove-IsStrict k (e ∷ l) s = elim (Bool-cases (less k e.0 || less e.0 k)) [
      | inl d ↦ rw d (remove-AllAbove k e l s.0, remove-IsStrict k l s.1)
      | inr d ↦ rw d s.1
    ]

    place-AllAbove :
        (k : K) (v : V) (e : Entry K V) (l : List (Entry K V))
        → less e.0 k ≡ true
        → AllAbove e l
        → AllAbove e (place (not_behind less k) (k, v) l)
    unfolding place AllAbove
    place-AllAbove k v e [] h a = (h, tt)
    place-AllAbove k v e (f ∷ l) h a = elim (Bool-cases (not_behind less k f)) [
      | inl d ↦ rw d (a.0, place-AllAbove k v e l h a.1)
      | inr d ↦ rw d (h, a)
    ]

    AllAbove-before :
        (k : K) (v : V) (e : Entry K V) (l : List (Entry K V))
        → less e.0 k ≡ false
        → AllAbove e l
        → AllAbove (k, v) l
    unfolding AllAbove
    AllAbove-before k v e [] h a = tt
    AllAbove-before k v e (f ∷ l) h a =
        (order.cotransitive e.0 k f.0 a.0 h, AllAbove-before k v e l h a.1)

    -- An absent key is greater than those that it does not stand before.
    above_passed :
        (k : K) (e : Entry K V) (l : List (Entry K V))
        → lookup k (e ∷ l) ≡ none
        → not_behind less k e ≡ true
        → (less e.0 k ≡ true) × (lookup k l ≡ none)
    unfolding lookup not_behind
    above_passed k e l h p = elim (Bool-cases (less k e.0)) [
      | inl b ↦ cc (b, p)
      | inr b ↦ elim (Bool-cases (less e.0 k)) [
        | inl c ↦ (
          c,
          sym (
                then_case {A = Option V} {b = less k e.0 || less e.0 k} (some e.1)
                  (ground (arith, c)))
              ∙ h,
        )
        | inr c ↦ cc (
            sym (
              else_case {A = Option V} {b = less k e.0 || less e.0 k} (lookup k l)
                (ground (arith, b, c)))
            ∙ h)
      ]
    ]

    pub place-IsStrict :
        (k : K) (v : V) (l : List (Entry K V))
        → lookup k l ≡ none
        → IsStrict l
        → IsStrict (place (not_behind less k) (k, v) l)
    unfolding place IsStrict AllAbove not_behind
    place-IsStrict k v [] h s = (tt, tt)
    place-IsStrict k v (e ∷ l) h s = elim (Bool-cases (not_behind less k e)) [
      | inl p ↦
          let a = above_passed k e l h p in
          rw p (place-AllAbove k v e l a.0 s.0, place-IsStrict k v l a.1 s.1)
      | inr p ↦
          rw p
            ((not-false p, AllAbove-before k v e l (order.asymmetric k e.0 (not-false p)) s.0), s)
    ]

    -- A key that is equivalent to an entry's is not among those above it.
    above_absent :
        (j : K) (e : Entry K V) (l : List (Entry K V))
        → less e.0 j ≡ false
        → AllAbove e l
        → lookup j l ≡ none
    unfolding AllAbove lookup
    above_absent j e [] h a = refl
    above_absent j e (f ∷ l) h a =
        rw (order.cotransitive e.0 j f.0 a.0 h) (above_absent j e l h a.1)

    pub lookup-remove :
        (j k : K) (l : List (Entry K V))
        → IsStrict l
        → lookup j (remove k l) ≡ (if same less j k then none else lookup j l)
    unfolding lookup remove IsStrict
    lookup-remove j k [] s = ground arith
    lookup-remove j k (e ∷ l) s = elim (Bool-cases (less k e.0 || less e.0 k)) [
      | inl d ↦ elim (Bool-cases (same less j k)) [
        | inl r ↦
            rw (d, r, differs less order j k e.0 r d)
              (lookup-remove j k l s.1 ∙ then_case (lookup j l) r)
        | inr r ↦ rw (d, r, lookup-remove j k l s.1 ∙ else_case none r) refl
      ]
      | inr d ↦ elim (Bool-cases (same less j k)) [
        | inl r ↦
            rw (d, r)
              (above_absent j e l (right_false (less j e.0) (alike less order j k e.0 r d)) s.0)
        | inr r ↦ rw (d, r, unlike less order j k e.0 r d) refl
      ]
    ]

    pub lookup-place :
        (j k : K) (v : V) (l : List (Entry K V))
        → lookup k l ≡ none
        → lookup j (place (not_behind less k) (k, v) l)
          ≡ (if same less j k then some v else lookup j l)
    unfolding lookup place
    lookup-place j k v [] h = ground arith
    lookup-place j k v (e ∷ l) h = elim (Bool-cases (not_behind less k e)) [
      | inl p ↦
          let a = above_passed k e l h p in
          let ih = lookup-place j k v l a.1 in
          elim (Bool-cases (same less j k)) [
            | inl r ↦
                rw (p, r, differs less order j k e.0 r (ground (arith, a.0)))
                  (ih ∙ then_case (lookup j l) r)
            | inr r ↦ rw (p, r, ih ∙ else_case (some v) r) refl
          ]
      | inr p ↦ rw p (ground arith)
    ]
