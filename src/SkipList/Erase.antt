-- ===== src/SkipList/Erase.antt =====
-- `erase` of atomic_skiplist.hpp takes an entry out of the ordered map.
use cpp_lockfree_structures.Prelude.{
  ◌≡◌, refl, sym, ap, ◌∙◌, subst, Bool, true, false, none, is_some, List, [], ◌∷◌, if◌then◌else◌,
}
use cpp_lockfree_structures.Levels.{Node, unlink, live}
use cpp_lockfree_structures.Levels.Order.{
  aside, IsStrictWeak, cores, live-cores, AtBottom, Ahead, IsSorted,
}
use cpp_lockfree_structures.SkipList.{Entry, mark, erase_at, erase}
use cpp_lockfree_structures.SkipList.Ordered.{
  lookup, remove, remove_absent, remove-IsStrict, lookup-remove,
}
use cpp_lockfree_structures.SkipList.Keys.{same}
use cpp_lockfree_structures.SkipList.Seek.{entry_less, lookup-Ahead}
use cpp_lockfree_structures.SkipList.Map.{Represents}

module _ {ℓ κ} {K : Type ℓ} {V : Type κ} (less : K → K → Bool) (order : IsStrictWeak less)
    (k : K) where
  -- What `erase` leaves.
  record Erased (nodes : List (Node (Entry K V))) (r : Bool × List (Node (Entry K V)))
      : Type (ℓ ⊔ κ) where
    taken : r.0 ≡ is_some (lookup less k (live nodes))
    items : live r.1 ≡ remove less k (live nodes)
    bottom : AtBottom r.1
    sorted : IsSorted (entry_less less) (cores r.1)
    ahead :
        (e : Entry K V)
        → Ahead (entry_less less) e (cores nodes)
        → Ahead (entry_less less) e (cores r.1)

  -- An erased node in front changes nothing.
  Erased-marked :
      (c c' : Node (Entry K V)) (rest : List (Node (Entry K V)))
      (r : Bool × List (Node (Entry K V)))
      → c.marked ≡ true
      → c'.marked ≡ true
      → c'.item ≡ c.item
      → Ahead (entry_less less) c.item (cores rest)
      → Erased rest r
      → Erased (c ∷ rest) (r.0, c' ∷ r.1)
  unfolding live AtBottom Ahead IsSorted
  Erased-marked c c' rest r m m' e a h = record {
    taken = simp m h.taken;
    items = simp (m, m') h.items;
    bottom = ((λ u. cc (m', u)), h.bottom);
    sorted =
        (subst (λ x. Ahead (entry_less less) x (cores r.1)) (sym e) (h.ahead c.item a), h.sorted);
    ahead = λ x b. ((λ u. cc (m', u)), h.ahead x b.1);
  }

  erase_at-Erased :
      (c : Node (Entry K V)) (rest : List (Node (Entry K V))) (w : Bool × List (Node (Entry K V)))
      → AtBottom (c ∷ rest)
      → Ahead (entry_less less) c.item (cores rest)
      → IsSorted (entry_less less) (cores rest)
      → Erased rest w
      → (l m b d : Bool) → c.linked 0 ≡ l
      → c.marked ≡ m
      → less k c.item.0 ≡ b
      → less c.item.0 k ≡ d
      → Erased (c ∷ rest) (erase_at less c rest w l m b d)
  unfolding erase_at AtBottom Ahead IsSorted unlink mark live lookup remove
  erase_at-Erased c rest w ab a s h false m b d el em eb ed =
      let n = aside ab.0 el in Erased-marked c c rest w n n refl a h
  erase_at-Erased c rest w ab a s h true true b d el em eb ed =
      Erased-marked c (unlink 0 c) rest w em em refl a h
  erase_at-Erased c rest w ab a s h true false true d el em eb ed =
      let n =
        ap (lookup less k) (live-cores rest) ∙ lookup-Ahead less order k c.item (cores rest) eb a in
      record {
        taken = simp (em, eb) (ap is_some (sym n));
        items = simp (em, eb) (ap (λ l. c.item ∷ l) (sym (remove_absent less k (live rest) n)));
        bottom = ab;
        sorted = (a, s);
        ahead = λ x g. g;
      }
  erase_at-Erased c rest w ab a s h true false false true el em eb ed = record {
    taken = simp (em, eb, ed) h.taken;
    items = simp (em, eb, ed) (ap (λ l. c.item ∷ l) h.items);
    bottom = (ab.0, h.bottom);
    sorted = (h.ahead c.item a, h.sorted);
    ahead = λ x g. (g.0, h.ahead x g.1);
  }
  erase_at-Erased c rest w ab a s h true false false false el em eb ed = record {
    taken = simp (em, eb, ed) refl;
    items = simp (em, eb, ed) refl;
    bottom = ((λ u. el), ab.1);
    sorted = (a, s);
    ahead = λ x g. ((λ u. cc u), g.1);
  }

  erase-Erased :
      (nodes : List (Node (Entry K V)))
      → AtBottom nodes
      → IsSorted (entry_less less) (cores nodes)
      → Erased nodes (erase less k nodes)
  unfolding erase AtBottom IsSorted live lookup remove
  erase-Erased [] b s = record {
    taken = refl;
    items = refl;
    bottom = tt;
    sorted = tt;
    ahead = λ x g. g;
  }
  erase-Erased (c ∷ rest) b s =
      erase_at-Erased c rest (erase less k rest) b s.0 s.1 (erase-Erased rest b.1 s.1) (c.linked 0)
        c.marked (less k c.item.0) (less c.item.0 k) refl refl refl refl

  -- Under a strict weak order: `erase` takes out the entry of an equivalent key, and says whether there
  -- was one; a search then finds no such key, and every other as before.
  pub erase_removes_entry :
      (nodes : List (Node (Entry K V))) (l : List (Entry K V))
      → Represents less nodes l
      → ((erase less k nodes).0 ≡ is_some (lookup less k l))
        × Represents less (erase less k nodes).1 (remove less k l)
        × ((j : K)
            → lookup less j (remove less k l) ≡ (if same less j k then none else lookup less j l))
  erase_removes_entry nodes l h =
      let g = erase-Erased nodes h.bottom h.sorted in
      (
        g.taken ∙ ap (λ m. is_some (lookup less k m)) h.items,
        record {
          items = g.items ∙ ap (remove less k) h.items;
          bottom = g.bottom;
          sorted = g.sorted;
          strict = remove-IsStrict less order k l h.strict;
        },
        λ j. lookup-remove less order j k l h.strict,
      )
