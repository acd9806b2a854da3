-- ===== src/Levels/Place.antt =====
-- Where `find_predecessors` of atomic_skiplist.hpp and atomic_priority_queue.hpp puts a new node.
use cpp_lockfree_structures.Prelude.{
  ℕ, zero, suc, ◌≡◌, refl, sym, ap, ◌∙◌, subst, Bool, true, false, List, [], ◌∷◌, ◌++◌,
  append_assoc, append-nil, inl, inr, if◌then◌else◌, arith, Bool-cases,
}
use cpp_lockfree_structures.Levels.{Node, new_node, unlink, carry, visit, walk, descend, live}
use cpp_lockfree_structures.Levels.Order.{
  Core, cores, live_cores, live-cores, cores-append, live_cores-append, AtBottom, AtBottom-append,
  Ahead, IsSorted, IsSorted-split,
}
use cpp_lockfree_structures.Levels.Walk.{walk-cores, walk-AtBottom, Passed, Beyond, walk-passed}

module _ {ℓ} {A : Type ℓ} (passes : A → Bool) where
  -- A new item behind those that pass.
  unfoldable pub place : A → List A → List A
  place x [] = x ∷ []
  place x (y ∷ ys) = let later = place x ys in if passes y then y ∷ later else x ∷ (y ∷ ys)

  Passed-append : (p r : List (Core A)) → Passed passes p → Passed passes r → Passed passes (p ++ r)
  unfolding Passed
  Passed-append [] r hp hr = hr
  Passed-append ((x, marked) ∷ p) r hp hr = (hp.0, Passed-append p r hp.1 hr)

  place-passed :
      (x : A) (p : List (Core A)) (l : List A)
      → Passed passes p
      → place x (live_cores p ++ l) ≡ live_cores p ++ place x l
  unfolding Passed place
  place-passed x [] l h = refl
  place-passed x ((y, true) ∷ p) l h = place-passed x p l h.1
  place-passed x ((y, false) ∷ p) l h = rw h.0 (ap (λ l. y ∷ l) (place-passed x p l h.1))

  place-Beyond :
      (x : A) (r : List (Core A)) → Beyond passes r → place x (live_cores r) ≡ x ∷ live_cores r
  unfolding Beyond place
  place-Beyond x [] h = refl
  place-Beyond x ((y, true) ∷ r) h = place-Beyond x r h.1
  place-Beyond x ((y, false) ∷ r) h = rw (h.0 refl) refl

  module _ (less : A → A → Bool)
      (closed : (x y : A) → passes y ≡ true → less y x ≡ false → passes x ≡ true) where
    Ahead-Beyond : (x : A) (r : List (Core A)) → passes x ≡ false → Ahead less x r → Beyond passes r
    unfolding Ahead Beyond
    Ahead-Beyond x [] e a = tt
    Ahead-Beyond x ((y, marked) ∷ r) e a = (
      (λ unmarked. elim (Bool-cases (passes y)) [
        | inl p ↦ cc (closed x y p (a.0 unmarked))
        | inr p ↦ p
      ]),
      Ahead-Beyond x r e a.1,
    )

    carry-Beyond :
        (c : Node A) (w : List (Node A) × List (Node A))
        → c.marked ≡ true
        → Beyond passes (cores w.1)
        → Beyond passes (cores (carry c w).1)
    unfolding carry Beyond
    carry-Beyond c ([], r) m h = ((λ unmarked. cc), h)
    carry-Beyond c (d ∷ p, r) m h = h

    visit-Beyond :
        (c : Node A) (rest : List (Node A)) (w : List (Node A) × List (Node A))
        → (c.marked ≡ false → c.linked 0 ≡ true)
        → Ahead less c.item (cores rest)
        → Beyond passes (cores w.1)
        → (l p m : Bool) → c.linked 0 ≡ l
        → passes c.item ≡ p
        → c.marked ≡ m
        → Beyond passes (cores (visit 0 c rest w l p m).1)
    unfolding visit unlink Beyond
    visit-Beyond c rest w b a h false p true el ep em = carry-Beyond c w em h
    visit-Beyond c rest w b a h false p false el ep em = carry-Beyond c w (cc (b em)) h
    visit-Beyond c rest w b a h true false m el ep em =
        ((λ unmarked. ep), Ahead-Beyond c.item (cores rest) ep a)
    visit-Beyond c rest w b a h true true true el ep em = carry-Beyond (unlink 0 c) w em h
    visit-Beyond c rest w b a h true true false el ep em = h

    walk-Beyond :
        (nodes : List (Node A))
        → AtBottom nodes
        → IsSorted less (cores nodes)
        → Beyond passes (cores (walk passes 0 nodes).1)
    unfolding walk IsSorted AtBottom Beyond
    walk-Beyond [] b s = tt
    walk-Beyond (c ∷ rest) b s =
        visit-Beyond c rest (walk passes 0 rest) b.0 s.0 (walk-Beyond rest b.1 s.1) (c.linked 0)
          (passes c.item) c.marked refl refl refl

    -- What a descent over `nodes` comes to, down to level 0.
    pub record Descended (nodes : List (Node A)) (d : List (Node A) × List (Node A)) : Type ℓ where
      pub kept : cores (d.0 ++ d.1) ≡ cores nodes
      pub bottom : AtBottom d.0 × AtBottom d.1
      pub passed : Passed passes (cores d.0)
      pub beyond : Beyond passes (cores d.1)

    pub rest-IsSorted :
        (p r nodes : List (Node A))
        → cores (p ++ r) ≡ cores nodes
        → IsSorted less (cores nodes)
        → IsSorted less (cores r)
    rest-IsSorted p r nodes e s =
        (IsSorted-split less (cores p) (cores r)
          (subst (IsSorted less) (sym e ∙ cores-append p r) s)).1

    Descended-behind :
        (w d : List (Node A) × List (Node A)) (nodes : List (Node A))
        → cores (w.0 ++ w.1) ≡ cores nodes
        → AtBottom w.0
        → Passed passes (cores w.0)
        → Descended w.1 d
        → Descended nodes (w.0 ++ d.0, d.1)
    Descended-behind w d nodes e b p h = record {
      kept =
          ap cores (append_assoc w.0 d.0 d.1)
          ∙ cores-append w.0 (d.0 ++ d.1)
          ∙ ap (λ l. cores w.0 ++ l) h.kept
          ∙ sym (cores-append w.0 w.1)
          ∙ e;
      bottom = (AtBottom-append w.0 d.0 b h.bottom.0, h.bottom.1);
      passed =
          subst (Passed passes) (sym (cores-append w.0 d.0))
            (Passed-append (cores w.0) (cores d.0) p h.passed);
      beyond = h.beyond;
    }

    pub descend-Descended :
        (n : ℕ) (nodes : List (Node A))
        → AtBottom nodes
        → IsSorted less (cores nodes)
        → Descended nodes (descend passes (suc n) nodes)
    unfolding descend
    descend-Descended zero nodes b s = rw (append-nil (walk passes 0 nodes).0) (record {
      kept = walk-cores passes 0 nodes;
      bottom = walk-AtBottom passes 0 nodes b;
      passed = (walk-passed passes less closed 0 nodes s).0;
      beyond = walk-Beyond nodes b s;
    })
    descend-Descended (suc n) nodes b s =
        let w = walk passes (suc n) nodes in
        Descended-behind w (descend passes (suc n) w.1) nodes (walk-cores passes (suc n) nodes)
          (walk-AtBottom passes (suc n) nodes b).0
          (walk-passed passes less closed (suc n) nodes s).0
          (descend-Descended n w.1 (walk-AtBottom passes (suc n) nodes b).1
            (rest-IsSorted w.0 w.1 nodes (walk-cores passes (suc n) nodes) s))

    module _ (x : A) (before : (y : A) → passes y ≡ true → less x y ≡ false)
        (after : (y : A) → passes y ≡ false → less y x ≡ false) where
      Ahead-insert :
          (y : A) (p r : List (Core A))
          → Ahead less y (p ++ r)
          → less x y ≡ false
          → Ahead less y (p ++ (x, false) ∷ r)
      unfolding Ahead
      Ahead-insert y [] r a l = ((λ unmarked. l), a)
      Ahead-insert y ((z, marked) ∷ p) r a l = (a.0, Ahead-insert y p r a.1 l)

      Beyond-Ahead : (r : List (Core A)) → Beyond passes r → Ahead less x r
      unfolding Beyond Ahead
      Beyond-Ahead [] h = tt
      Beyond-Ahead ((y, marked) ∷ r) h = ((λ unmarked. after y (h.0 unmarked)), Beyond-Ahead r h.1)

      IsSorted-insert :
          (p r : List (Core A))
          → IsSorted less (p ++ r)
          → Passed passes p
          → Beyond passes r
          → IsSorted less (p ++ (x, false) ∷ r)
      unfolding IsSorted Passed
      IsSorted-insert [] r s hp hr = (Beyond-Ahead r hr, s)
      IsSorted-insert ((y, marked) ∷ p) r s hp hr =
          (Ahead-insert y p r s.0 (before y hp.0), IsSorted-insert p r s.1 hp.1 hr)

      -- The list once a new node of `x` stands at the place that `find_predecessors` found.
      pub record Grown (nodes nodes' : List (Node A)) : Type ℓ where
        pub items : live nodes' ≡ place x (live nodes)
        pub bottom : AtBottom nodes'
        pub sorted : IsSorted less (cores nodes')

      pub descend-Grown :
          (level : ℕ) (nodes : List (Node A)) (d : List (Node A) × List (Node A))
          → IsSorted less (cores nodes)
          → Descended nodes d
          → Grown nodes (d.0 ++ new_node x level ∷ d.1)
      unfolding new_node AtBottom
      descend-Grown level nodes d s h = record {
        items =
            live-cores (d.0 ++ new_node x level ∷ d.1)
            ∙ ap live_cores (cores-append d.0 (new_node x level ∷ d.1))
            ∙ live_cores-append (cores d.0) ((x, false) ∷ cores d.1)
            ∙ ap (λ l. live_cores (cores d.0) ++ l) (sym (place-Beyond x (cores d.1) h.beyond))
            ∙ sym (place-passed x (cores d.0) (live_cores (cores d.1)) h.passed)
            ∙ ap (place x) (
                sym (live_cores-append (cores d.0) (cores d.1))
                ∙ ap live_cores (sym (cores-append d.0 d.1) ∙ h.kept)
                ∙ sym (live-cores nodes));
        bottom =
            AtBottom-append d.0 (new_node x level ∷ d.1) h.bottom.0
              ((λ unmarked. ground arith), h.bottom.1);
        sorted = subst (IsSorted less) (sym (cores-append d.0 (new_node x level ∷ d.1))) (
            IsSorted-insert (cores d.0) (cores d.1)
              (subst (IsSorted less) (sym h.kept ∙ cores-append d.0 d.1) s) h.passed h.beyond);
      }
