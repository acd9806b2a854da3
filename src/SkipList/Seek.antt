-- ===== src/SkipList/Seek.antt =====
-- One level of `find` of atomic_skiplist.hpp against a linear search.
use cpp_lockfree_structures.Prelude.{
  ℕ, ◌≡◌, refl, sym, ap, ap₂, ◌∙◌, subst, Bool, true, false, ◌||◌, Option, none, some, List, [],
  ◌∷◌, ◌++◌, inl, inr, arith, Bool-cases,
}
use cpp_lockfree_structures.Levels.{Node, unlink, carry, live}
use cpp_lockfree_structures.Levels.Order.{
  aside, IsStrictWeak, Core, core, cores, live_cores, live-cores, AtBottom, Ahead, IsSorted,
}
use cpp_lockfree_structures.Levels.Walk.{carry-cores, carry-AtBottom, carry-passed, Passed, Stands}
use cpp_lockfree_structures.SkipList.Ordered.{lookup, AllAbove, IsStrict}
use cpp_lockfree_structures.SkipList.Keys.{then_case, else_case}
use cpp_lockfree_structures.SkipList.{Entry, Found, seek_at, seek}

module _ {ℓ κ} {K : Type ℓ} {V : Type κ} (less : K → K → Bool) where
  abbrev pub entry_less : Entry K V → Entry K V → Bool
  entry_less e f = less e.0 f.0

  abbrev pub is_behind : K → Entry K V → Bool
  is_behind k e = less e.0 k

  module _ (order : IsStrictWeak less) (k : K) where
    -- An entry in front of one that the search finds is not the one it looks for.
    before_found :
        (e : Entry K V) (v : V) (l : List (Entry K V))
        → AllAbove less e l
        → lookup less k l ≡ some v
        → (less k e.0 || less e.0 k) ≡ true
    unfolding AllAbove lookup
    before_found e v [] a h = cc
    before_found e v (f ∷ l) a h = elim (Bool-cases (less k f.0 || less f.0 k)) [
      | inl d ↦ before_found e v l a.1 (sym (then_case (some f.1) d) ∙ h)
      | inr d ↦ grind (arith, order.cotransitive e.0 k f.0 a.0)
    ]

    lookup-cons :
        (e : Entry K V) (v : V) (l : List (Entry K V))
        → AllAbove less e l
        → lookup less k l ≡ some v
        → lookup less k (e ∷ l) ≡ some v
    unfolding lookup
    lookup-cons e v l a h = then_case (some e.1) (before_found e v l a h) ∙ h

    -- No entry behind a greater one is the one that is looked for.
    pub lookup-Ahead :
        (e : Entry K V) (cs : List (Core (Entry K V)))
        → less k e.0 ≡ true
        → Ahead entry_less e cs
        → lookup less k (live_cores cs) ≡ none
    unfolding lookup Ahead
    lookup-Ahead e [] b a = refl
    lookup-Ahead e ((f, true) ∷ cs) b a = lookup-Ahead e cs b a.1
    lookup-Ahead e ((f, false) ∷ cs) b a = elim (Bool-cases (less k f.0)) [
      | inl d ↦ rw d (lookup-Ahead e cs b a.1)
      | inr d ↦ absurd (cc (a.0 refl, order.cotransitive k f.0 e.0 b d))
    ]

    pub lookup-passed :
        (cs : List (Core (Entry K V))) (l : List (Entry K V))
        → Passed (is_behind k) cs
        → lookup less k (live_cores cs ++ l) ≡ lookup less k l
    unfolding lookup Passed
    lookup-passed [] l h = refl
    lookup-passed ((e, true) ∷ cs) l h = lookup-passed cs l h.1
    lookup-passed ((e, false) ∷ cs) l h =
        then_case {A = Option V} {b = less k e.0 || less e.0 k} (some e.1) (ground (arith, h.0))
        ∙ lookup-passed cs l h.1

    -- What a walk of `find` comes to.
    pub record Sought (i : ℕ) (nodes : List (Node (Entry K V))) (w : Found K V) : Type (ℓ ⊔ κ) where
      pub kept : cores (w.1 ++ w.2) ≡ cores nodes
      pub bottom : AtBottom w.1 × AtBottom w.2
      pub passed : Passed (is_behind k) (cores w.1) × Stands (is_behind k) w.1
      pub hit : (v : V) → w.0 ≡ some v → lookup less k (live nodes) ≡ some v
      pub missed : w.0 ≡ none → i ≡ 0 → lookup less k (live nodes) ≡ none

    pub closed :
        (x y : Entry K V) → is_behind k y ≡ true → entry_less y x ≡ false → is_behind k x ≡ true
    closed x y p h = order.cotransitive y.0 x.0 k p h

    -- A node that the walk does not see, and one that it unlinks.
    Sought-carry :
        (i : ℕ) (c c' : Node (Entry K V)) (rest : List (Node (Entry K V))) (w : Found K V)
        → core c' ≡ core c
        → (c.marked ≡ false → c'.linked 0 ≡ true)
        → (i ≡ 0 → c.marked ≡ true)
        → Ahead entry_less c.item (cores rest)
        → (c.marked ≡ false → AllAbove less c.item (live rest))
        → Sought i rest w
        → (let p = carry c' (w.1, w.2) in Sought i (c ∷ rest) (w.0, p.0, p.1))
    unfolding live
    Sought-carry i c c' rest w e b m a s h = record {
      kept = carry-cores c' (w.1, w.2) ∙ ap₂ (λ x l. x ∷ l) e h.kept;
      bottom = carry-AtBottom c' (w.1, w.2) (λ u. b (sym (ap (λ x. x.1) e) ∙ u)) h.bottom;
      passed =
          carry-passed (is_behind k) entry_less closed c' (w.1, w.2)
            (subst (λ x. Ahead entry_less x (cores (w.1 ++ w.2))) (sym (ap (λ x. x.0) e))
              (subst (Ahead entry_less c.item) (sym h.kept) a))
            h.passed;
      hit = λ v f. elim (Bool-cases c.marked) [
        | inl u ↦ simp u (h.hit v f)
        | inr u ↦ simp u (lookup-cons c.item v (live rest) (s u) (h.hit v f))
      ];
      missed = λ f z. simp (m z) (h.missed f z);
    }

    Stands-cons :
        (c : Node (Entry K V)) (p : List (Node (Entry K V)))
        → c.marked ≡ false
        → is_behind k c.item ≡ true
        → Stands (is_behind k) p
        → Stands (is_behind k) (c ∷ p)
    unfolding Stands
    Stands-cons c [] m d h = (m, d)
    Stands-cons c (e ∷ p) m d h = h

    seek_at-Sought :
        (i : ℕ) (c : Node (Entry K V)) (rest : List (Node (Entry K V))) (w : Found K V)
        → AtBottom (c ∷ rest)
        → Ahead entry_less c.item (cores rest)
        → (c.marked ≡ false → AllAbove less c.item (live rest))
        → Sought i rest w
        → (l m b d : Bool) → c.linked i ≡ l
        → c.marked ≡ m
        → less k c.item.0 ≡ b
        → less c.item.0 k ≡ d
        → Sought i (c ∷ rest) (seek_at less i c rest w l m b d)
    unfolding seek_at AtBottom unlink Passed Stands live lookup
    seek_at-Sought i c rest w ab a s h false m b d el em eb ed =
        Sought-carry i c c rest w refl ab.0 (λ z. aside ab.0 (ap c.linked (sym z) ∙ el)) a s h
    seek_at-Sought i c rest w ab a s h true true b d el em eb ed =
        Sought-carry i c (unlink i c) rest w refl (λ u. cc (em, u)) (λ z. em) a s h
    seek_at-Sought i c rest w ab a s h true false true d el em eb ed = record {
      kept = refl;
      bottom = (tt, ab);
      passed = (tt, tt);
      hit = λ v f. cc f;
      missed = λ f z.
          simp (em, eb)
            (ap (lookup less k) (live-cores rest) ∙ lookup-Ahead c.item (cores rest) eb a);
    }
    seek_at-Sought i c rest w ab a s h true false false true el em eb ed = record {
      kept = ap (λ l. core c ∷ l) h.kept;
      bottom = ((ab.0, h.bottom.0), h.bottom.1);
      passed = ((ed, h.passed.0), Stands-cons c w.1 em ed h.passed.1);
      hit = λ v f. simp (em, eb, ed) (h.hit v f);
      missed = λ f z. simp (em, eb, ed) (h.missed f z);
    }
    seek_at-Sought i c rest w ab a s h true false false false el em eb ed = record {
      kept = refl;
      bottom = (tt, ab);
      passed = (tt, tt);
      hit = λ v f. simp (em, eb, ed) f;
      missed = λ f z. cc f;
    }

    IsStrict-rest :
        (c : Node (Entry K V)) (rest : List (Node (Entry K V)))
        → IsStrict less (live (c ∷ rest))
        → (c.marked ≡ false → AllAbove less c.item (live rest)) × IsStrict less (live rest)
    unfolding live IsStrict
    IsStrict-rest c rest s = elim (Bool-cases c.marked) [
      | inl m ↦ ((λ u. cc (m, u)), subst (IsStrict less) (then_case (c.item ∷ live rest) m) s)
      | inr m ↦ let t = subst (IsStrict less) (else_case (live rest) m) s in ((λ u. t.0), t.1)
    ]

    pub seek-Sought :
        (i : ℕ) (nodes : List (Node (Entry K V)))
        → AtBottom nodes
        → IsSorted entry_less (cores nodes)
        → IsStrict less (live nodes)
        → Sought i nodes (seek less k i nodes)
    unfolding seek AtBottom IsSorted Passed Stands live lookup
    seek-Sought i [] b s t = record {
      kept = refl;
      bottom = (tt, tt);
      passed = (tt, tt);
      hit = λ v f. cc f;
      missed = λ f z. refl;
    }
    seek-Sought i (c ∷ rest) b s t =
        let u = IsStrict-rest c rest t in
        seek_at-Sought i c rest (seek less k i rest) b s.0 u.0 (seek-Sought i rest b.1 s.1 u.1)
          (c.linked i) c.marked (less k c.item.0) (less c.item.0 k) refl refl refl refl
