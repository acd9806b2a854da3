-- ===== src/Stack/Layout.antt =====
-- How the nodes of a stack lie in the heap: a list of addresses and elements, top first.
use cpp_lockfree_structures.Prelude.{
  ℕ, ◌<◌, ◌^◌, ◌≡◌, ◌≢◌, sym, refl, ap, ap₂, Option, none, some, List, [], ◌∷◌, update, update_ne,
  ◌∙◌, arith,
}
use cpp_lockfree_structures.Stack.{Node, Heap, Stack, get_ptr}

module _ {ℓ} {A : Type ℓ} where
  -- The address of the first node.
  abbrev pub address : List (ℕ × A) → ℕ
  address [] = 0
  address ((a, x) ∷ cs) = a

  abbrev pub items : List (ℕ × A) → List A
  items [] = []
  items ((a, x) ∷ cs) = x ∷ items cs

  -- No node stands at `p`.
  abbrev pub Absent : ℕ → List (ℕ × A) → Type 0
  Absent p [] = Unit
  Absent p ((a, x) ∷ cs) = (p ≢ a) × Absent p cs

  -- The nodes stand in the heap, each linked to the next, at different addresses.
  abbrev pub Laid : Heap A → List (ℕ × A) → Type ℓ
  Laid h [] = Unit
  Laid h ((a, x) ∷ cs) =
      (0 < a)
      × (a < 2 ^ 48)
      × (h a ≡ some (record { item = x; next = address cs }))
      × Absent a cs
      × Laid h cs

  pub Laid-update :
      (h : Heap A) (p : ℕ) (c : Option (Node A)) (cs : List (ℕ × A))
      → Absent p cs
      → Laid h cs
      → Laid (update h p c) cs
  Laid-update h p c [] n l = tt
  Laid-update h p c ((a, x) ∷ cs) n l =
      (l.0, l.1, update_ne h p c (λ e. n.0 (sym e)) ∙ l.2, l.3, Laid-update h p c cs n.1 l.4)

  pub address-lt : (h : Heap A) (cs : List (ℕ × A)) → Laid h cs → address cs < 2 ^ 48
  address-lt h [] l = omega arith
  address-lt h ((a, x) ∷ cs) l = l.1

  -- A free address holds no node of the stack.
  pub free-Absent : (h : Heap A) (p : ℕ) (cs : List (ℕ × A)) → h p ≡ none → Laid h cs → Absent p cs
  free-Absent h p [] f l = tt
  free-Absent h p ((a, x) ∷ cs) f l = (λ e. cc, free-Absent h p cs f l.4)

  -- The stack holds `cs`, top first.
  pub record Represents (s : Stack A) (cs : List (ℕ × A)) : Type ℓ where
    pub top_at : get_ptr s.head ≡ address cs
    pub laid : Laid s.heap cs

  -- The first node of a stack whose head points somewhere.
  pub first_node :
      {s : Stack A} (n : Node A) (cs : List (ℕ × A))
      → Represents s cs
      → get_ptr s.head ≢ 0
      → s.heap (get_ptr s.head) ≡ some n
      → (cs' : List (ℕ × A)) × (cs ≡ (get_ptr s.head, n.item) ∷ cs') × (n.next ≡ address cs')
  first_node n [] v nz h = absurd (nz v.top_at)
  first_node {s} n ((a, x) ∷ cs) v nz h = (
    cs,
    ap₂ (λ b y. (b, y) ∷ cs) (sym v.top_at) (ap (λ (m : Node A). m.item) (sym same)),
    ap (λ (m : Node A). m.next) same,
  )
    where
      same : n ≡ record { item = x; next = address cs }
      same = cc (v.top_at, v.laid.2)

  pub nil_of_null :
      {s : Stack A} (cs : List (ℕ × A)) → Represents s cs → get_ptr s.head ≡ 0 → cs ≡ []
  nil_of_null [] v z = refl
  nil_of_null ((a, x) ∷ cs) v z = absurd (omega (arith, v.top_at, v.laid.0))
