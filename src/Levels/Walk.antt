-- ===== src/Levels/Walk.antt =====
-- The walk of `find_predecessors` in atomic_skiplist.hpp and atomic_priority_queue.hpp, on one level
-- and down all levels: it keeps the items, and it splits them at the place of the new one.
use cpp_lockfree_structures.Prelude.{
  ℕ, zero, suc, ◌≡◌, refl, sym, ap, ◌∙◌, subst, Bool, true, false, List, [], ◌∷◌, ◌++◌, arith,
}
use cpp_lockfree_structures.Levels.{Node, unlink, carry, visit, walk, descend}
use cpp_lockfree_structures.Levels.Order.{
  Core, core, cores, cores-append, AtBottom, Ahead, IsSorted, Ahead-split,
}

module _ {ℓ} {A : Type ℓ} where
  pub carry-cores :
      (c : Node A) (w : List (Node A) × List (Node A))
      → cores ((carry c w).0 ++ (carry c w).1) ≡ core c ∷ cores (w.0 ++ w.1)
  unfolding carry
  carry-cores c ([], r) = refl
  carry-cores c (d ∷ p, r) = refl

  visit-cores :
      (i : ℕ) (c : Node A) (rest : List (Node A)) (w : List (Node A) × List (Node A))
      → cores (w.0 ++ w.1) ≡ cores rest
      → (l p m : Bool)
      → cores ((visit i c rest w l p m).0 ++ (visit i c rest w l p m).1) ≡ core c ∷ cores rest
  unfolding visit unlink
  visit-cores i c rest w e false p m = carry-cores c w ∙ ap (λ l. core c ∷ l) e
  visit-cores i c rest w e true false m = refl
  visit-cores i c rest w e true true true = carry-cores (unlink i c) w ∙ ap (λ l. core c ∷ l) e
  visit-cores i c rest w e true true false = ap (λ l. core c ∷ l) e

  pub carry-AtBottom :
      (c : Node A) (w : List (Node A) × List (Node A))
      → (c.marked ≡ false → c.linked 0 ≡ true)
      → AtBottom w.0 × AtBottom w.1
      → AtBottom (carry c w).0 × AtBottom (carry c w).1
  unfolding carry AtBottom
  carry-AtBottom c ([], r) b h = (tt, (b, h.1))
  carry-AtBottom c (d ∷ p, r) b h = ((b, h.0), h.1)

  visit-AtBottom :
      (i : ℕ) (c : Node A) (rest : List (Node A)) (w : List (Node A) × List (Node A))
      → (c.marked ≡ false → c.linked 0 ≡ true)
      → AtBottom rest
      → AtBottom w.0 × AtBottom w.1
      → (l p m : Bool) → c.marked ≡ m
      → AtBottom (visit i c rest w l p m).0 × AtBottom (visit i c rest w l p m).1
  unfolding visit unlink AtBottom
  visit-AtBottom i c rest w b h k false p m e = carry-AtBottom c w b k
  visit-AtBottom i c rest w b h k true false m e = (tt, (b, h))
  visit-AtBottom i c rest w b h k true true true e =
      carry-AtBottom (unlink i c) w (λ unmarked. ground (arith, e)) k
  visit-AtBottom i c rest w b h k true true false e = ((b, k.0), k.1)

  module _ (passes : A → Bool) where
    pub walk-cores :
        (i : ℕ) (nodes : List (Node A))
        → cores ((walk passes i nodes).0 ++ (walk passes i nodes).1) ≡ cores nodes
    unfolding walk
    walk-cores i [] = refl
    walk-cores i (c ∷ rest) =
        visit-cores i c rest (walk passes i rest) (walk-cores i rest) (c.linked i) (passes c.item)
          c.marked

    pub walk-AtBottom :
        (i : ℕ) (nodes : List (Node A))
        → AtBottom nodes
        → AtBottom (walk passes i nodes).0 × AtBottom (walk passes i nodes).1
    unfolding walk AtBottom
    walk-AtBottom i [] h = (tt, tt)
    walk-AtBottom i (c ∷ rest) h =
        visit-AtBottom i c rest (walk passes i rest) h.0 h.1 (walk-AtBottom i rest h.1) (c.linked i)
          (passes c.item) c.marked refl

    -- The items all pass.
    unfoldable pub Passed : List (Core A) → Type 0
    Passed [] = Unit
    Passed ((x, marked) ∷ p) = (passes x ≡ true) × Passed p

    -- The last node is unmarked and passes.
    unfoldable pub Stands : List (Node A) → Type 0
    Stands [] = Unit
    Stands (c ∷ []) = (c.marked ≡ false) × (passes c.item ≡ true)
    Stands (c ∷ d ∷ p) = Stands (d ∷ p)

    -- No unmarked node passes.
    unfoldable pub Beyond : List (Core A) → Type 0
    Beyond [] = Unit
    Beyond ((x, marked) ∷ r) = (marked ≡ false → passes x ≡ false) × Beyond r

    -- The first node of the chain of level 0 does not pass.
    unfoldable pub Stopped : List (Node A) → Type 0
    Stopped [] = Unit
    Stopped (c ∷ rest) =
        (c.linked 0 ≡ true → passes c.item ≡ false) × (c.linked 0 ≡ false → Stopped rest)

    carry-Stopped :
        (c : Node A) (w : List (Node A) × List (Node A))
        → c.linked 0 ≡ false
        → Stopped w.1
        → Stopped (carry c w).1
    unfolding carry Stopped
    carry-Stopped c ([], r) k h = ((λ l. cc (k, l)), (λ l. h))
    carry-Stopped c (d ∷ p, r) k h = h

    visit-Stopped :
        (c : Node A) (rest : List (Node A)) (w : List (Node A) × List (Node A))
        → Stopped w.1
        → (l p m : Bool) → c.linked 0 ≡ l
        → passes c.item ≡ p
        → Stopped (visit 0 c rest w l p m).1
    unfolding visit unlink Stopped
    visit-Stopped c rest w h false p m el ep = carry-Stopped c w el h
    visit-Stopped c rest w h true false m el ep = ((λ l. ep), (λ l. cc (el, l)))
    visit-Stopped c rest w h true true true el ep = carry-Stopped (unlink 0 c) w refl h
    visit-Stopped c rest w h true true false el ep = h

    walk-Stopped : (nodes : List (Node A)) → Stopped (walk passes 0 nodes).1
    unfolding walk Stopped
    walk-Stopped [] = tt
    walk-Stopped (c ∷ rest) =
        visit-Stopped c rest (walk passes 0 rest) (walk-Stopped rest) (c.linked 0) (passes c.item)
          c.marked refl refl

    pub descend-Stopped : (n : ℕ) (nodes : List (Node A)) → Stopped (descend passes (suc n) nodes).1
    unfolding descend
    descend-Stopped zero nodes = walk-Stopped nodes
    descend-Stopped (suc n) nodes = descend-Stopped n (walk passes (suc n) nodes).1

    module _ (less : A → A → Bool)
        (closed : (x y : A) → passes y ≡ true → less y x ≡ false → passes x ≡ true) where
      passes-Stands :
          (x : A) (d : Node A) (p : List (Node A))
          → Stands (d ∷ p)
          → Ahead less x (cores (d ∷ p))
          → passes x ≡ true
      unfolding Stands Ahead
      passes-Stands x d [] s a = closed x d.item s.1 (a.0 s.0)
      passes-Stands x d (e ∷ p) s a = passes-Stands x e p s a.1

      pub carry-passed :
          (c : Node A) (w : List (Node A) × List (Node A))
          → Ahead less c.item (cores (w.0 ++ w.1))
          → Passed (cores w.0) × Stands w.0
          → Passed (cores (carry c w).0) × Stands (carry c w).0
      unfolding carry Passed Stands
      carry-passed c ([], r) a h = (tt, tt)
      carry-passed c (d ∷ p, r) a h = (
        (
          passes-Stands c.item d p h.1
              (Ahead-split less c.item (cores (d ∷ p)) (cores r)
                (subst (Ahead less c.item) (cores-append (d ∷ p) r) a)).0,
          h.0,
        ),
        h.1,
      )

      visit-passed :
          (i : ℕ) (c : Node A) (rest : List (Node A)) (w : List (Node A) × List (Node A))
          → Ahead less c.item (cores (w.0 ++ w.1))
          → Passed (cores w.0) × Stands w.0
          → (l p m : Bool) → passes c.item ≡ p
          → c.marked ≡ m
          → Passed (cores (visit i c rest w l p m).0) × Stands (visit i c rest w l p m).0
      unfolding visit unlink Passed Stands
      visit-passed i c rest w a h false p m ep em = carry-passed c w a h
      visit-passed i c rest w a h true false m ep em = (tt, tt)
      visit-passed i c rest w a h true true true ep em = carry-passed (unlink i c) w a h
      visit-passed i c rest ([], r) a h true true false ep em = ((ep, tt), (em, ep))
      visit-passed i c rest (d ∷ p, r) a h true true false ep em = ((ep, h.0), h.1)

      pub walk-passed :
          (i : ℕ) (nodes : List (Node A))
          → IsSorted less (cores nodes)
          → Passed (cores (walk passes i nodes).0) × Stands (walk passes i nodes).0
      unfolding walk IsSorted Passed Stands
      walk-passed i [] s = (tt, tt)
      walk-passed i (c ∷ rest) s =
          visit-passed i c rest (walk passes i rest)
            (subst (Ahead less c.item) (sym (walk-cores i rest)) s.0) (walk-passed i rest s.1)
            (c.linked i) (passes c.item) c.marked refl refl
