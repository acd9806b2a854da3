-- ===== src/PriorityQueue/Popped.antt =====
-- The loop of `pop` of atomic_priority_queue.hpp.
use cpp_lockfree_structures.Prelude.{
  ℕ, zero, suc, ◌+◌, ◌<◌, ◌≡◌, refl, ◌∙◌, Bool, true, false, ◌&&◌, Option, some, List, [], ◌∷◌,
  head?, inl, inr, if◌then◌else◌, arith, Bool-cases,
}
use cpp_lockfree_structures.Outcomes.{head_fails, tail, spurious, tail-spurious, spurious-tail}
use cpp_lockfree_structures.Levels.{Node, unlink, live}
use cpp_lockfree_structures.Levels.Order.{aside, cores, AtBottom, Ahead, IsSorted}
use cpp_lockfree_structures.PriorityQueue.{mark, pop_loop}

module _ {ℓ} {A : Type ℓ} where
  -- The marked nodes that are in the lowest chain.
  abbrev pub lingering : List (Node A) → ℕ
  lingering [] = 0
  lingering (c ∷ rest) =
      let later = lingering rest in if c.linked 0 && c.marked then suc later else later

  lingering-aside :
      (c : Node A) (rest : List (Node A))
      → c.linked 0 ≡ false
      → lingering (c ∷ rest) ≡ lingering rest
  lingering-aside c rest k = ground arith

  lingering-marked :
      (c : Node A) (rest : List (Node A))
      → c.linked 0 ≡ true
      → c.marked ≡ true
      → lingering (c ∷ rest) ≡ suc (lingering rest)
  lingering-marked c rest k m = ground arith

  abbrev pub rest_of : List A → List A
  rest_of [] = []
  rest_of (x ∷ xs) = xs

  module _ (higher : A → A → Bool) where
    -- What taking the first of the items that are in leaves.
    pub record Popped (nodes : List (Node A)) (r : Option A × List (Node A)) : Type ℓ where
      pub taken : r.0 ≡ head? (live nodes)
      pub items : live r.1 ≡ rest_of (live nodes)
      pub bottom : AtBottom r.1
      pub sorted : IsSorted higher (cores r.1)
      pub ahead : (x : A) → Ahead higher x (cores nodes) → Ahead higher x (cores r.1)

    -- A marked node in front changes nothing.
    Popped-marked :
        (c c' : Node A) (rest : List (Node A)) (r : Option A × List (Node A))
        → c.marked ≡ true
        → c'.marked ≡ true
        → c'.item ≡ c.item
        → Ahead higher c.item (cores rest)
        → Popped rest r
        → Popped (c ∷ rest) (r.0, c' ∷ r.1)
    unfolding live AtBottom Ahead IsSorted
    Popped-marked c c' rest r m m' e a h = record {
      taken = rw m h.taken;
      items = rw (m, m') h.items;
      bottom = ((λ unmarked. cc), h.bottom);
      sorted = (rw e (h.ahead c.item a), h.sorted);
      ahead = λ x k. ((λ unmarked. cc), h.ahead x k.1);
    }

    Popped-first :
        (c c' : Node A) (rest : List (Node A))
        → c.marked ≡ false
        → c'.marked ≡ true
        → c'.item ≡ c.item
        → AtBottom rest
        → Ahead higher c.item (cores rest)
        → IsSorted higher (cores rest)
        → Popped (c ∷ rest) (some c.item, c' ∷ rest)
    unfolding live AtBottom Ahead IsSorted
    Popped-first c c' rest m m' e b a s = record {
      taken = rw m refl;
      items = rw (m, m') refl;
      bottom = ((λ unmarked. cc), b);
      sorted = (rw e a, s);
      ahead = λ x k. ((λ unmarked. cc), k.1);
    }

    pub unlinked : (c : Node A) → ((unlink 0 c).marked ≡ c.marked) × ((unlink 0 c).item ≡ c.item)
    unfolding unlink
    unlinked c = (refl, refl)

    marked_node :
        (moved : A → A) (c : Node A)
        → ((mark moved c).marked ≡ true) × ((mark moved c).item ≡ moved c.item)
    unfolding mark
    marked_node moved c = (refl, refl)

    module _ (moved : A → A) (keeps : (x : A) → moved x ≡ x) where
      pub pop_loop_lem :
          (n : ℕ) (weak : List Bool) (nodes : List (Node A))
          → spurious weak + lingering nodes < n
          → AtBottom nodes
          → IsSorted higher (cores nodes)
          → Popped nodes (pop_loop moved n weak nodes)
      unfolding pop_loop live AtBottom IsSorted
      pop_loop_lem n weak [] g b s = record {
        taken = refl;
        items = refl;
        bottom = tt;
        sorted = tt;
        ahead = λ x k. k;
      }
      pop_loop_lem zero weak (c ∷ rest) g b s = absurd (omega arith)
      pop_loop_lem (suc n) weak (c ∷ rest) g b s = elim (Bool-cases (c.linked 0)) [
        | inr k ↦ simp k (
            Popped-marked c c rest (pop_loop moved (suc n) weak rest) (aside b.0 k) (aside b.0 k)
              refl s.0
              (pop_loop_lem (suc n) weak rest (omega (arith, g, lingering-aside c rest k)) b.1 s.1))
        | inl k ↦ elim (Bool-cases c.marked) [
          | inr m ↦ elim (Bool-cases (head_fails weak)) [
            | inl w ↦
                simp (k, m, w)
                  (Popped-first c (mark moved c) rest m (marked_node moved c).0
                    ((marked_node moved c).1 ∙ keeps c.item) b.1 s.0 s.1)
            | inr w ↦
                simp (k, m, w)
                  (Popped-first c (unlink 0 (mark moved c)) rest m
                    ((unlinked (mark moved c)).0 ∙ (marked_node moved c).0)
                    ((unlinked (mark moved c)).1 ∙ (marked_node moved c).1 ∙ keeps c.item) b.1 s.0
                    s.1)
          ]
          | inl m ↦ elim (Bool-cases (head_fails weak)) [
            | inl w ↦
                simp (k, m, w)
                  (pop_loop_lem n (tail weak) (c ∷ rest) (omega (arith, g, tail-spurious weak w)) b
                    s)
            | inr w ↦
                simp (k, m, w)
                  (Popped-marked c (unlink 0 c) rest (pop_loop moved n (tail weak) rest) m
                    ((unlinked c).0 ∙ m) (unlinked c).1 s.0
                    (pop_loop_lem n (tail weak) rest
                      (omega (arith, g, spurious-tail weak w, lingering-marked c rest k m)) b.1
                      s.1))
          ]
        ]
      ]
