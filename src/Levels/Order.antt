-- ===== src/Levels/Order.antt =====
-- The order of the nodes of the chains of atomic_skiplist.hpp and atomic_priority_queue.hpp.
use cpp_lockfree_structures.Prelude.{
  ◌≡◌, refl, ap, Bool, true, false, List, [], ◌∷◌, ◌++◌, if◌then◌else◌, arith,
}
use cpp_lockfree_structures.Levels.{Node, live}

-- A comparator is a strict weak order.
pub record IsStrictWeak {ℓ} {A : Type ℓ} (less : A → A → Bool) : Type ℓ where
  pub asymmetric : (x y : A) → less x y ≡ true → less y x ≡ false
  pub cotransitive : (x y z : A) → less x z ≡ true → less x y ≡ false → less y z ≡ true

-- A node that is not linked on the lowest level is marked, if the unmarked ones are linked there.
pub aside : {l m : Bool} → (m ≡ false → l ≡ true) → l ≡ false → m ≡ true
aside {l} {m = true} b k = refl
aside {l} {m = false} b k = cc (b refl)

-- What the walks leave of a node: its item and its mark.
abbrev pub Core {ℓ} : Type ℓ → Type ℓ
Core A = A × Bool

module _ {ℓ} {A : Type ℓ} where
  abbrev pub core : Node A → Core A
  core c = (c.item, c.marked)

  abbrev pub cores : List (Node A) → List (Core A)
  cores [] = []
  cores (c ∷ rest) = core c ∷ cores rest

  abbrev pub live_cores : List (Core A) → List A
  live_cores [] = []
  live_cores ((x, marked) ∷ rest) =
      let later = live_cores rest in if marked then later else x ∷ later

  pub live-cores : (nodes : List (Node A)) → live nodes ≡ live_cores (cores nodes)
  unfolding live
  live-cores [] = refl
  live-cores (c ∷ rest) = ground (arith, live-cores rest)

  pub cores-append : (p r : List (Node A)) → cores (p ++ r) ≡ cores p ++ cores r
  cores-append [] r = refl
  cores-append (c ∷ p) r = ap (λ l. core c ∷ l) (cores-append p r)

  pub live_cores-append : (p r : List (Core A)) → live_cores (p ++ r) ≡ live_cores p ++ live_cores r
  live_cores-append [] r = refl
  live_cores-append ((x, true) ∷ p) r = live_cores-append p r
  live_cores-append ((x, false) ∷ p) r = ap (λ l. x ∷ l) (live_cores-append p r)

  -- Every unmarked node is in the lowest chain.
  unfoldable pub AtBottom : List (Node A) → Type 0
  AtBottom [] = Unit
  AtBottom (c ∷ rest) = (c.marked ≡ false → c.linked 0 ≡ true) × AtBottom rest

  pub AtBottom-append : (p r : List (Node A)) → AtBottom p → AtBottom r → AtBottom (p ++ r)
  unfolding AtBottom
  AtBottom-append [] r hp hr = hr
  AtBottom-append (c ∷ p) r hp hr = (hp.0, AtBottom-append p r hp.1 hr)

  module _ (less : A → A → Bool) where
    -- No unmarked node behind `x` has a lesser item.
    unfoldable pub Ahead : A → List (Core A) → Type 0
    Ahead x [] = Unit
    Ahead x ((y, marked) ∷ rest) = (marked ≡ false → less y x ≡ false) × Ahead x rest

    unfoldable pub IsSorted : List (Core A) → Type 0
    IsSorted [] = Unit
    IsSorted ((x, marked) ∷ rest) = Ahead x rest × IsSorted rest

    pub Ahead-append : (x : A) (p r : List (Core A)) → Ahead x p → Ahead x r → Ahead x (p ++ r)
    unfolding Ahead
    Ahead-append x [] r hp hr = hr
    Ahead-append x ((y, marked) ∷ p) r hp hr = (hp.0, Ahead-append x p r hp.1 hr)

    pub Ahead-split : (x : A) (p r : List (Core A)) → Ahead x (p ++ r) → Ahead x p × Ahead x r
    unfolding Ahead
    Ahead-split x [] r h = (tt, h)
    Ahead-split x ((y, marked) ∷ p) r h = let ih = Ahead-split x p r h.1 in ((h.0, ih.0), ih.1)

    pub IsSorted-split : (p r : List (Core A)) → IsSorted (p ++ r) → IsSorted p × IsSorted r
    unfolding IsSorted
    IsSorted-split [] r h = (tt, h)
    IsSorted-split ((x, marked) ∷ p) r h =
        let ih = IsSorted-split p r h.1 in (((Ahead-split x p r h.0).0, ih.0), ih.1)
