-- ===== src/WorkStealingDeque/Race/Claims.antt =====
-- No position of the deque is handed out twice, whatever the interleaving.
use cpp_lockfree_structures.Prelude.{
  ℕ, ◌≤◌, ◌<◌, ◌≡◌, ◌≢◌, refl, sym, subst, Option, none, some, update, update_self, update_ne,
  arith,
}
use native.Mathlib.Decide.{ℕ_discrete}
use cpp_lockfree_structures.WorkStealingDeque.{Deque}
use cpp_lockfree_structures.WorkStealingDeque.Race.Moves.{
  Owner, lowered, taking, deciding, restoring, Thief, at_top, ready, saw, won, OwnerMove, find_some,
  win, ThiefMove, see_some, claim, System, Step, own, rob, Reach, start, later, quiet,
}

module _ {ℓ} {A : Type ℓ} where
  -- What the owner's locals say about the deque.
  abbrev OwnerInv : Deque A → Owner A → Type 0
  OwnerInv d (lowered b) = d.bottom ≡ b
  OwnerInv d (taking b t) = (d.bottom ≡ b) × (t ≤ b) × (t ≤ d.top)
  OwnerInv d (deciding b t out) = (d.bottom ≡ b) × (t ≤ b) × (t ≤ d.top)
  OwnerInv d (restoring b (some x)) = b < d.top
  OwnerInv d _ = Unit

  -- While the owner takes position `b` without a race, the thieves stay below it.
  abbrev Limit : Owner A → ℕ → Type 0
  Limit (taking b t) p = t ≢ b → p < b
  Limit (deciding b t out) p = t ≢ b → p < b
  Limit _ p = Unit

  -- After the owner has won position `b`, no thief holds it.
  abbrev Apart : Owner A → ℕ → Type 0
  Apart (restoring b (some x)) p = p ≢ b
  Apart _ p = Unit

  abbrev ThiefInv : Deque A → Owner A → Thief A → Type 0
  ThiefInv d o (at_top t) = t ≤ d.top
  ThiefInv d o (ready t) = (t ≤ d.top) × Limit o t
  ThiefInv d o (saw t) = (t ≤ d.top) × Limit o t
  ThiefInv d o (won t) = (t < d.top) × Limit o t × Apart o t
  ThiefInv d o _ = Unit

  OwnerMove-OwnerInv :
      {d d' : Deque A} {o o' : Owner A} → OwnerMove d o d' o' → OwnerInv d o → OwnerInv d' o'
  OwnerMove-OwnerInv (find_some h) v = omega arith
  OwnerMove-OwnerInv (win {out = none} e f) v = tt
  OwnerMove-OwnerInv (win {out = some x} e f) v = omega arith
  OwnerMove-OwnerInv _ v = omega arith

  OwnerMove-ThiefInv :
      {d d' : Deque A} {o o' : Owner A}
      → OwnerMove d o d' o'
      → OwnerInv d o
      → (p : Thief A) → ThiefInv d o p
      → ThiefInv d' o' p
  OwnerMove-ThiefInv (find_some h) v p q = ground arith
  OwnerMove-ThiefInv (win {out = none} e f) v p q = ground arith
  OwnerMove-ThiefInv (win {out = some x} e f) v p q = ground arith
  OwnerMove-ThiefInv _ v p q = ground arith

  ThiefMove-OwnerInv :
      {d d' : Deque A} {p p' : Thief A}
      → ThiefMove d p d' p'
      → (o : Owner A) → OwnerInv d o
      → OwnerInv d' o
  ThiefMove-OwnerInv (claim e) o v = ground arith
  ThiefMove-OwnerInv _ o v = ground arith

  -- The thief that moves.
  ThiefMove-ThiefInv :
      {d d' : Deque A} {p p' : Thief A}
      → ThiefMove d p d' p'
      → (o : Owner A) → OwnerInv d o
      → ThiefInv d o p
      → ThiefInv d' o p'
  ThiefMove-ThiefInv (see_some h) o v q = ground arith
  ThiefMove-ThiefInv (claim e) o v q = ground arith
  ThiefMove-ThiefInv _ o v q = ground arith

  -- Another thief.
  ThiefMove-others :
      {d d' : Deque A} {p p' : Thief A}
      → ThiefMove d p d' p'
      → (o : Owner A) (r : Thief A) → ThiefInv d o r
      → ThiefInv d' o r
  ThiefMove-others (claim e) o r q = ground arith
  ThiefMove-others _ o r q = ground arith

  record Inv (s : System A) : Type ℓ where
    owned : OwnerInv s.deque s.owner
    robbed : (i : ℕ) → ThiefInv s.deque s.owner (s.thief i)
    distinct : (i j t : ℕ) → s.thief i ≡ won t → s.thief j ≡ won t → i ≡ j

  -- A thief that has just won position `t` is the only one there: the others are below it.
  ThiefMove-distinct :
      {d d' : Deque A} {p p' : Thief A} (o : Owner A) (f : ℕ → Thief A) (i : ℕ)
      → ThiefMove d p d' p'
      → f i ≡ p
      → ((j : ℕ) → ThiefInv d o (f j))
      → ((j m t : ℕ) → f j ≡ won t → f m ≡ won t → j ≡ m)
      → (j m t : ℕ) → update f i p' j ≡ won t
      → update f i p' m ≡ won t
      → j ≡ m
  ThiefMove-distinct o f i (claim e) at robbed distinct j m t a b = elim (ℕ_discrete j i) [
    | yes p ↦ elim (ℕ_discrete m i) [ yes q ↦ omega arith | no q ↦ ground (arith, robbed m) ]
    | no p ↦ elim (ℕ_discrete m i) [
      | yes q ↦ ground (arith, robbed j)
      | no q ↦ ground (arith, distinct j m t)
    ]
  ]
  ThiefMove-distinct o f i _ at robbed distinct j m t a b = elim (ℕ_discrete j i) [
    | yes p ↦ ground arith
    | no p ↦ elim (ℕ_discrete m i) [ yes q ↦ ground arith | no q ↦ ground (arith, distinct j m t) ]
  ]

  Step-Inv : {s s' : System A} → Step s s' → Inv s → Inv s'
  Step-Inv {s} (own mv) v = record {
    owned = OwnerMove-OwnerInv mv v.owned;
    robbed = λ i. OwnerMove-ThiefInv mv v.owned (s.thief i) (v.robbed i);
    distinct = v.distinct;
  }
  Step-Inv {s} (rob i {d} {p} mv) v = record {
    owned = ThiefMove-OwnerInv mv s.owner v.owned;
    robbed = λ j. elim (ℕ_discrete j i) [
      | yes e ↦
          subst (ThiefInv d s.owner) (sym (update_self s.thief i p e))
            (ThiefMove-ThiefInv mv s.owner v.owned (v.robbed i))
      | no ne ↦
          subst (ThiefInv d s.owner) (sym (update_ne s.thief i p ne))
            (ThiefMove-others mv s.owner (s.thief j) (v.robbed j))
    ];
    distinct = ThiefMove-distinct s.owner s.thief i mv refl v.robbed v.distinct;
  }

  Reach-Inv : {d : Deque A} {s : System A} → Reach (quiet d) s → Inv s
  Reach-Inv start = record { owned = tt; robbed = λ i. tt; distinct = λ i j t a b. cc }
  Reach-Inv (later r st) = Step-Inv st (Reach-Inv r)

  -- No position is handed out twice: from a quiet deque, whatever the interleaving, two thieves never
  -- hold the same position; a thief never holds the position that the owner takes without a race;
  -- nor the position of the last element that the owner has won.
  pub no_double_claim :
      {d : Deque A} {s : System A}
      → Reach (quiet d) s
      → (i j p : ℕ) → s.thief i ≡ won p
      → (s.thief j ≡ won p → i ≡ j)
        × ((b t : ℕ) (out : Option A) → s.owner ≡ deciding b t out → t ≢ b → p ≢ b)
        × ((b : ℕ) (x : A) → s.owner ≡ restoring b (some x) → p ≢ b)
  no_double_claim {d} {s} r i j p e = (
    v.distinct i j p e,
    λ b t out o ne. ground (arith, v.robbed i),
    λ b x o. ground (arith, v.robbed i),
  )
    where
      v : Inv s
      v = Reach-Inv r
