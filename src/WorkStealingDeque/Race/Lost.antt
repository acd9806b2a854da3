-- ===== src/WorkStealingDeque/Race/Lost.antt =====
-- How `pop_bottom` and `steal` can lose the last element between them.
use cpp_lockfree_structures.Prelude.{
  ℕ, suc, ◌<◌, ◌^◌, ◌≡◌, refl, ap, Bool-cases, ◌==◌, inl, inr, ◌%◌, Bool, true, false, none, some,
  [], ◌∷◌, add64, update, update_self, arith,
}
use cpp_lockfree_structures.Circular.{Window, Window-tail}
use cpp_lockfree_structures.WorkStealingDeque.{Deque, slot_index}
use cpp_lockfree_structures.WorkStealingDeque.Refine.{Full, Free, Represents, slot_index-eq}
use cpp_lockfree_structures.WorkStealingDeque.Race.Moves.{
  Owner, Thief, OwnerMove, ThiefMove, popped, stole, pop_load, lower, find_some, exchange, lose,
  restore, load_top, see_some, see_item, claim, take, System, own, rob, Reach, start, later, quiet,
}

-- Whether a call returns an element.
abbrev got_by_owner {ℓ} : {A : Type ℓ} → Owner A → Bool
got_by_owner (popped (some x)) = true
got_by_owner _ = false

abbrev got_by_thief {ℓ} : {A : Type ℓ} → Thief A → Bool
got_by_thief (stole (some x)) = true
got_by_thief _ = false

module _ {ℓ} {A : Type ℓ} where
  -- No call returns an element in this state.
  record NothingGot (s : System A) : Type 0 where
    owner_got : got_by_owner s.owner ≡ false
    thieves_got : (i : ℕ) → got_by_thief (s.thief i) ≡ false

  -- Nor in any state on the way to it.
  pub NeverGot : {s u : System A} → Reach s u → Type 0
  NeverGot {s} start = NothingGot s
  NeverGot (later {u = u} r step) = NeverGot r × NothingGot u

  -- A run in which no call returns an element.
  abbrev Silent : System A → System A → Type ℓ
  Silent s u = (r : Reach s u) × NeverGot r × NothingGot u

  Silent-start : (d : Deque A) → Silent (quiet d) (quiet d)
  unfolding NeverGot
  Silent-start d =
      let g : NothingGot (quiet d) = record { owner_got = refl; thieves_got = λ i. refl } in
      (start, g, g)

  Silent-own :
      {s u : System A} {d : Deque A} {o : Owner A}
      → Silent s u
      → OwnerMove u.deque u.owner d o
      → got_by_owner o ≡ false
      → Silent s (record { deque = d; owner = o; thief = u.thief })
  unfolding NeverGot
  Silent-own {u = u} {d = d} {o = o} (r, n, g) m e =
      let g' : NothingGot (record { deque = d; owner = o; thief = u.thief }) = record {
        owner_got = e;
        thieves_got = g.thieves_got;
      } in
      (later r (own m), (n, g'), g')

  Silent-rob :
      {s u : System A} (i : ℕ) {d : Deque A} {p : Thief A}
      → Silent s u
      → ThiefMove u.deque (u.thief i) d p
      → got_by_thief p ≡ false
      → Silent s (record { deque = d; owner = u.owner; thief = update u.thief i p })
  unfolding NeverGot
  Silent-rob {u = u} i {d = d} {p = p} (r, n, g) m e =
      let g' : NothingGot (record { deque = d; owner = u.owner; thief = update u.thief i p }) =
        record {
          owner_got = g.owner_got;
          thieves_got = λ j. elim (Bool-cases (j == i)) [
            | inl here ↦ rw here e
            | inr away ↦ rw away (g.thieves_got j)
          ];
        } in
      (later r (rob i m), (n, g'), g')

module _ {ℓ} {A : Type ℓ} {d : Deque A} {x : A} (v : Represents d (x ∷ []))
    (fits : d.bottom < 2 ^ 64) where
  abbrev emptied : Deque A
  emptied = record {
    buffer = update (update d.buffer (slot_index d.top) none) (slot_index d.top) none;
    top = suc d.top;
    bottom = add64 d.top 1;
  }

  slot : d.buffer (slot_index d.top) ≡ some x
  slot = rw (slot_index-eq d.top) v.window.holds.0

  emptied-Represents : Represents emptied []
  emptied-Represents = record {
    window = record {
      holds = tt;
      fits = omega arith;
      free = λ i a b. twice (i % 4096) ((tail i).free i a b);
    };
    span = omega (arith, v.span);
    room = omega arith;
  }
    where
      tail : ℕ → Window 4096 Full Free (update d.buffer (slot_index d.top) none) (suc d.top) []
      tail i =
          Window-tail 4096 Full Free (slot_index d.top) (suc d.top) none v.window
            (slot_index-eq d.top) refl refl

      twice : (j : ℕ) → update d.buffer (slot_index d.top) none j ≡ none → emptied.buffer j ≡ none
      twice j e = elim (Bool-cases (j == slot_index d.top)) [
        | inl here ↦ rw here
        | inr away ↦ rw away (rw away at e)
      ]

  gone : update d.buffer (slot_index d.top) none (slot_index d.top) ≡ none
  gone = update_self d.buffer (slot_index d.top) none refl

  -- Whenever the deque holds a single element, there is a run in which no
  -- call ever returns an element, but which ends with `pop_bottom` and `steal` both returning the null
  -- pointer and the deque empty: the element is lost. The thief reads the element; the owner takes
  -- it out of its slot; the thief wins the race for `top_` and finds the slot empty; the owner loses
  -- the race and gives up.
  pub last_element_lost :
      (s : System A) × (r : Reach (quiet d) s) × NeverGot r
      × (s.owner ≡ popped none)
      × (s.thief 0 ≡ stole none)
      × Represents s.deque []
  last_element_lost =
      let begun =
        Silent-rob 0
          (Silent-rob 0 (Silent-rob 0 (Silent-start d) load_top refl)
            (see_some (omega (arith, v.span))) refl)
          (see_item {x = x} slot) refl in
      let taken =
        Silent-own
          (Silent-own
            (Silent-own (Silent-own begun (pop_load {b = d.top} (omega (arith, v.span))) refl) lower
              refl)
            (find_some (omega arith)) refl)
          exchange refl in
      let robbed =
        Silent-rob 0 (Silent-rob 0 taken (claim refl) refl) take
          (ap (λ o. got_by_thief (stole o)) gone) in
      let done = Silent-own (Silent-own robbed (lose refl (omega arith)) refl) restore refl in
      (_, done.0, done.1, refl, ap stole gone, emptied-Represents)
