-- ===== src/RbTree/Visit.antt =====
-- The iterator of atomic_rbtree.hpp visits the entries that are not erased, in order.
use cpp_lockfree_structures.Prelude.{
  ℕ, zero, suc, ◌+◌, ◌≤◌, ◌≡◌, refl, sym, ap, subst, ◌∙◌, Bool, true, false, Option, none, some,
  List, [], ◌∷◌, ◌++◌, append-nil, append_assoc, length, length-append, arith,
}
use mathlib.Core.Option
use cpp_lockfree_structures.RbTree.{Color, Tree, leaf, node, RbTree}
use cpp_lockfree_structures.RbTree.Iterator.{
  Parents, top, left_of, right_of, Iterator, end, leftmost, climb, successor, is_marked, advance,
  next, begin, get?,
}

module _ {ℓ κ} {K : Type ℓ} {V : Type κ} where
  -- The nodes in order, with their marks.
  unfoldable pub inorder : Tree K V → List (Bool × K × V)
  inorder leaf = []
  inorder (node l k v c m r) = inorder l ++ (m, k, v) ∷ inorder r

  -- The entries of the nodes that are not marked.
  unfoldable pub unmarked : List (Bool × K × V) → List (K × V)
  unmarked [] = []
  unmarked ((true, k, v) ∷ rest) = unmarked rest
  unmarked ((false, k, v) ∷ rest) = (k, v) ∷ unmarked rest

  unfoldable pub nodes : Tree K V → ℕ
  nodes leaf = 0
  nodes (node l k v c m r) = nodes l + suc (nodes r)

  -- The entries that `for (auto [k, v] : tree)` goes through, within `g` rounds.
  unfoldable pub visit : ℕ → ℕ → Iterator K V → Option (List (K × V))
  visit zero f it = none
  visit (suc g) f it =
      let later = visit g f (next f it) in
      elim (get? it) [ none ↦ some [] | some e ↦ Option.map (λ es. e ∷ es) later ]

  -- What the nodes above a position have still to give.
  unfoldable above : Parents K V → List (Bool × K × V)
  above top = []
  above (left_of k v c m r up) = (m, k, v) ∷ inorder r ++ above up
  above (right_of l k v c m up) = above up

  -- What is left, from the node of the position on.
  unfoldable remaining : Tree K V → Parents K V → List (Bool × K × V)
  remaining leaf up = []
  remaining (node l k v c m r) up = (m, k, v) ∷ inorder r ++ above up

  remaining_at : Iterator K V → List (Bool × K × V)
  remaining_at it = remaining it.current it.parent

  remaining-leftmost :
      (l : Tree K V) (k : K) (v : V) (c : Color) (m : Bool) (r : Tree K V) (up : Parents K V)
      → remaining_at (leftmost (node l k v c m r) up) ≡ inorder (node l k v c m r) ++ above up
  unfolding remaining_at leftmost remaining inorder above
  remaining-leftmost leaf k v c m r up = refl
  remaining-leftmost (node ll kl vl cl ml rl) k v c m r up =
      remaining-leftmost ll kl vl cl ml rl (left_of k v c m r up)
      ∙ sym (append_assoc (inorder (node ll kl vl cl ml rl)) ((m, k, v) ∷ inorder r) (above up))

  remaining-climb : (t : Tree K V) (up : Parents K V) → remaining_at (climb t up) ≡ above up
  unfolding remaining_at climb remaining above end
  remaining-climb t top = refl
  remaining-climb t (left_of k v c m r up) = refl
  remaining-climb t (right_of l k v c m up) = remaining-climb (node l k v c m t) up

  remaining-successor :
      (l : Tree K V) (k : K) (v : V) (c : Color) (m : Bool) (r : Tree K V) (up : Parents K V)
      → remaining_at (successor (node l k v c m r) up) ≡ inorder r ++ above up
  unfolding successor above inorder
  remaining-successor l k v c m leaf up = remaining-climb (node l k v c m leaf) up
  remaining-successor l k v c m (node lr kr vr cr mr rr) up =
      remaining-leftmost lr kr vr cr mr rr (right_of l k v c m up)

  -- With fuel for `s` nodes, the loop visits what remains, if that is at most `s` nodes.
  abbrev Visits : ℕ → Iterator K V → List (Bool × K × V) → Type (ℓ ⊔ κ)
  Visits s it xs =
      length xs ≤ s
      → (f n g : ℕ) → s ≤ f
      → s ≤ n
      → s ≤ g
      → visit (suc g) f (advance n it) ≡ some (unmarked xs)

  visit-advance :
      (s : ℕ) (t : Tree K V) (up : Parents K V)
      → Visits s (record { current = t; parent = up }) (remaining t up)
  unfolding remaining_at remaining visit advance unmarked get? is_marked next
  visit-advance s leaf up h f zero g a b d = refl
  visit-advance s leaf up h f (suc n) g a b d = refl
  visit-advance zero (node l k v c m r) up h f n g a b d = absurd (omega arith)
  visit-advance (suc s) (node l k v c m r) up h f zero g a b d = absurd (omega arith)
  visit-advance (suc s) (node l k v c m r) up h f (suc n) zero a b d = absurd (omega arith)
  visit-advance (suc s) (node l k v c true r) up h f (suc n) (suc g) a b d =
      subst (Visits s (successor (node l k v c true r) up)) (remaining-successor l k v c true r up)
        (visit-advance s (successor (node l k v c true r) up).current
          (successor (node l k v c true r) up).parent)
        (omega arith) f n (suc g) (omega arith) (omega arith) (omega arith)
  visit-advance (suc s) (node l k v c false r) up h f (suc n) (suc g) a b d =
      ap (Option.map (λ es. (k, v) ∷ es)) (
        subst (Visits s (successor (node l k v c false r) up))
          (remaining-successor l k v c false r up)
          (visit-advance s (successor (node l k v c false r) up).current
            (successor (node l k v c false r) up).parent)
          (omega arith) f f g (omega arith) (omega arith) (omega arith))

  length-inorder : (t : Tree K V) → length (inorder t) ≡ nodes t
  unfolding inorder nodes
  length-inorder leaf = refl
  length-inorder (node l k v c m r) =
      rw (length-append (inorder l) ((m, k, v) ∷ inorder r), length-inorder l, length-inorder r)
        refl

  visit-leftmost :
      (t : Tree K V)
      → visit (suc (nodes t)) (nodes t) (advance (nodes t) (leftmost t top))
        ≡ some (unmarked (inorder t))
  unfolding inorder nodes leftmost remaining remaining_at above
  visit-leftmost leaf =
      visit-advance 0 leaf top (omega arith) 0 0 0 (omega arith) (omega arith) (omega arith)
  visit-leftmost (node l k v c m r) =
      let n = nodes (node l k v c m r) in
      subst (Visits n (leftmost (node l k v c m r) top))
        (remaining-leftmost l k v c m r top ∙ append-nil (inorder (node l k v c m r)))
        (visit-advance n (leftmost (node l k v c m r) top).current
          (leftmost (node l k v c m r) top).parent)
        (subst (λ i. i ≤ n) (sym (length-inorder (node l k v c m r))) (omega arith)) n n n
        (omega arith) (omega arith) (omega arith)

  -- A loop over the tree visits the entries that are not erased, in order; as many steps as the tree
  -- has nodes are enough for each walk of the iterator.
  pub visit_in_order :
      (t : RbTree K V)
      → visit (suc (nodes t.root)) (nodes t.root) (begin (nodes t.root) t)
        ≡ some (unmarked (inorder t.root))
  unfolding begin
  visit_in_order t = visit-leftmost t.root
