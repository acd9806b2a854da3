-- ===== src/SkipList/Search.antt =====
-- `find` of atomic_skiplist.hpp, level by level, against a linear search.
use cpp_lockfree_structures.Prelude.{
  ℕ, zero, suc, ◌≡◌, refl, sym, ap, ◌∙◌, subst, Bool, Option, some, List, ◌++◌, inl, inr,
  Option-cases,
}
use cpp_lockfree_structures.Levels.{Node, live}
use cpp_lockfree_structures.Levels.Order.{
  IsStrictWeak, cores, live_cores, live-cores, cores-append, live_cores-append, AtBottom,
  AtBottom-append, IsSorted,
}
use cpp_lockfree_structures.Levels.Place.{rest-IsSorted}
use cpp_lockfree_structures.SkipList.Ordered.{lookup, IsStrict, IsStrict-split}
use cpp_lockfree_structures.SkipList.{Entry, Found, seek, find_loop}
use cpp_lockfree_structures.SkipList.Seek.{
  entry_less, is_behind, Sought, seek-Sought, lookup-passed, closed,
}

module _ {ℓ κ} {K : Type ℓ} {V : Type κ} (less : K → K → Bool) (order : IsStrictWeak less)
    (k : K) where
  pub record Searched (nodes : List (Node (Entry K V))) (r : Option V × List (Node (Entry K V)))
      : Type (ℓ ⊔ κ) where
    pub result : r.0 ≡ lookup less k (live nodes)
    pub kept : cores r.1 ≡ cores nodes
    pub bottom : AtBottom r.1

  level_below :
      (i : ℕ) (nodes : List (Node (Entry K V))) (w : Found K V)
      → Sought less order k i nodes w
      → lookup less k (live nodes) ≡ lookup less k (live w.2)
  level_below i nodes w h =
      ap (lookup less k) (
        live-cores nodes
        ∙ ap live_cores (sym h.kept ∙ cores-append w.1 w.2)
        ∙ live_cores-append (cores w.1) (cores w.2))
      ∙ lookup-passed less order k (cores w.1) (live_cores (cores w.2)) h.passed.0
      ∙ ap (lookup less k) (sym (live-cores w.2))

  IsStrict-behind :
      (i : ℕ) (nodes : List (Node (Entry K V))) (w : Found K V)
      → Sought less order k i nodes w
      → IsStrict less (live nodes)
      → IsStrict less (live w.2)
  IsStrict-behind i nodes w h t = subst (IsStrict less) (sym (live-cores w.2)) (
      IsStrict-split less (live_cores (cores w.1)) (live_cores (cores w.2)) (
        subst (IsStrict less)
          (live-cores nodes
            ∙ ap live_cores (sym h.kept ∙ cores-append w.1 w.2)
            ∙ live_cores-append (cores w.1) (cores w.2))
          t))

  Searched-hit :
      (i : ℕ) (v : V) (nodes : List (Node (Entry K V))) (w : Found K V)
      → w.0 ≡ some v
      → Sought less order k i nodes w
      → Searched nodes (some v, w.1 ++ w.2)
  Searched-hit i v nodes w f h = record {
    result = sym (h.hit v f);
    kept = h.kept;
    bottom = AtBottom-append w.1 w.2 h.bottom.0 h.bottom.1;
  }

  Searched-below :
      (i : ℕ) (nodes : List (Node (Entry K V))) (w : Found K V)
      (below : Option V × List (Node (Entry K V)))
      → Sought less order k i nodes w
      → Searched w.2 below
      → Searched nodes (below.0, w.1 ++ below.1)
  Searched-below i nodes w below h g = record {
    result = g.result ∙ sym (level_below i nodes w h);
    kept =
        cores-append w.1 below.1
        ∙ ap (λ l. cores w.1 ++ l) g.kept
        ∙ sym (cores-append w.1 w.2)
        ∙ h.kept;
    bottom = AtBottom-append w.1 below.1 h.bottom.0 g.bottom;
  }

  pub find_loop-Searched :
      (n : ℕ) (nodes : List (Node (Entry K V)))
      → AtBottom nodes
      → IsSorted (entry_less less) (cores nodes)
      → IsStrict less (live nodes)
      → Searched nodes (find_loop less k (suc n) nodes)
  unfolding find_loop
  find_loop-Searched zero nodes b s t =
      let h = seek-Sought less order k 0 nodes b s t in
      let w = seek less k 0 nodes in
      elim (Option-cases w.0) [
        | inr (v, f) ↦ rw (find_loop, f) (Searched-hit 0 v nodes w f h)
        | inl f ↦
            rw (find_loop, f)
              (record {
                result = sym (h.missed f refl);
                kept = h.kept;
                bottom = AtBottom-append w.1 w.2 h.bottom.0 h.bottom.1;
              })
      ]
  find_loop-Searched (suc n) nodes b s t =
      let h = seek-Sought less order k (suc n) nodes b s t in
      let w = seek less k (suc n) nodes in
      elim (Option-cases w.0) [
        | inr (v, f) ↦ rw (find_loop, f) (Searched-hit (suc n) v nodes w f h)
        | inl f ↦
            rw (find_loop, f)
              (Searched-below (suc n) nodes w (find_loop less k (suc n) w.2) h (
                find_loop-Searched n w.2 h.bottom.1
                  (rest-IsSorted (is_behind less k) (entry_less less) (closed less order k) w.1 w.2
                    nodes h.kept s)
                  (IsStrict-behind (suc n) nodes w h t)))
      ]
