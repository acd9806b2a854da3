-- ===== src/Circular.antt =====
-- A circular array of `size` slots, indexed by a growing position modulo `size`: what the bounded
-- buffers have in common (atomic_ringbuffer.hpp, atomic_mpmc_queue.hpp and
-- atomic_work_stealing_deque.hpp). `Full p x c` says that slot `c` holds `x` at position `p`, and
-- `Free p c` that it waits for position `p`.
use cpp_lockfree_structures.Prelude.{
  ℕ, suc, ◌+◌, ◌%◌, ◌≤◌, ◌<◌, ◌≡◌, refl, sym, subst, ◌≢◌, List, [], ◌∷◌, ◌++◌, length,
  length-append, update, update_self, update_ne, arith,
}
use native.Mathlib.Nat.{div-add-mod}
use mathlib.Core.Path.{subst₂}
use native.Mathlib.Decide.{dec_lt, ℕ_discrete}

-- Two positions less than one round apart stand in different slots.
pub mod-ne_of_lt : (n i j : ℕ) → i < j → j < i + n → i % n ≢ j % n
mod-ne_of_lt n i j h k e = grind (arith, div-add-mod)

pub mod-ne : (n t i j : ℕ) → t ≤ i → i < t + n → t ≤ j → j < t + n → i ≢ j → i % n ≢ j % n
mod-ne n t i j a b c d ne = elim (dec_lt i j) [
  | yes p ↦ mod-ne_of_lt n i j p (omega arith)
  | no p ↦ λ e. mod-ne_of_lt n j i (omega arith) (omega arith) (sym e)
]

-- One round on, the same slot.
pub add-mod_round : (t n : ℕ) → (t + n) % n ≡ t % n
add-mod_round t n = grind arith

module _ {ℓ κ μ} {A : Type ℓ} {S : Type κ} (size : ℕ) (Full : ℕ → A → S → Type μ)
    (Free : ℕ → S → Type μ) where
  -- The slots from position `t` on hold the elements of a list, in order.
  abbrev pub Holds : (ℕ → S) → ℕ → List A → Type μ
  Holds f t [] = Unit
  Holds f t (x ∷ xs) = Full t x (f (t % size)) × Holds f (suc t) xs

  -- The elements from position `t` on, and the slots behind them free for the rest of the round.
  pub record Window (f : ℕ → S) (t : ℕ) (xs : List A) : Type μ where
    pub holds : Holds f t xs
    pub fits : length xs ≤ size
    pub free : (i : ℕ) → t + length xs ≤ i → i < t + size → Free i (f (i % size))

  Holds-update :
      (f : ℕ → S) (t j : ℕ) (c : S) (xs : List A)
      → t + length xs ≤ j
      → j < t + size
      → Holds f t xs
      → Holds (update f (j % size) c) t xs
  Holds-update f t j c [] a b h = tt
  Holds-update f t j c (x ∷ xs) a b h = (
    subst (Full t x)
        (sym (
          update_ne f (j % size) c
            (mod-ne size t t j (omega arith) (omega arith) (omega arith) b (omega arith))))
        h.0,
    Holds-update f (suc t) j c xs (omega arith) (omega arith) h.1,
  )

  Holds-snoc :
      (f : ℕ → S) (t p : ℕ) (x : A) (xs : List A)
      → p ≡ t + length xs
      → Full p x (f (p % size))
      → Holds f t xs
      → Holds f t (xs ++ x ∷ [])
  Holds-snoc f t p x [] e c h =
      let q : t ≡ p = omega arith in (subst (λ k. Full k x (f (k % size))) (sym q) c, tt)
  Holds-snoc f t p x (y ∷ ys) e c h = (h.0, Holds-snoc f (suc t) p x ys (omega arith) c h.1)

  Holds-init : (f : ℕ → S) (t : ℕ) (x : A) (xs : List A) → Holds f t (xs ++ x ∷ []) → Holds f t xs
  Holds-init f t x [] h = tt
  Holds-init f t x (y ∷ ys) h = (h.0, Holds-init f (suc t) x ys h.1)

  -- The last element stands in the last slot.
  pub Holds-last :
      (f : ℕ → S) (t p : ℕ) (x : A) (xs : List A)
      → p ≡ t + length xs
      → Holds f t (xs ++ x ∷ [])
      → Full p x (f (p % size))
  Holds-last f t p x [] e h =
      let q : t ≡ p = omega arith in subst (λ k. Full k x (f (k % size))) q h.0
  Holds-last f t p x (y ∷ ys) e h = Holds-last f (suc t) p x ys (omega arith) h.1

  -- A write to the first free slot puts an element behind the others.
  Window-append_mod :
      {f : ℕ → S} {t : ℕ} {xs : List A} (p : ℕ) (x : A) (c : S)
      → Window f t xs
      → p ≡ t + length xs
      → length xs < size
      → Full p x c
      → Window (update f (p % size) c) t (xs ++ x ∷ [])
  Window-append_mod {f} {t} {xs} p x c w e lt full = record {
    holds =
        Holds-snoc g t p x xs e (subst (Full p x) (sym (update_self f (p % size) c refl)) full)
          (Holds-update f t p c xs (omega arith) (omega arith) w.holds);
    fits = omega (arith, length-append xs (x ∷ []));
    free = λ i a b.
        subst (Free i)
          (sym (
            update_ne f (p % size) c (
              mod-ne size t i p (omega arith) b (omega arith) (omega arith)
                (omega (arith, length-append xs (x ∷ []))))))
          (w.free i (omega (arith, length-append xs (x ∷ []))) b);
  }
    where
      g : ℕ → S
      g = update f (p % size) c

  -- Clearing the first slot for the next round drops the first element.
  Window-tail_mod :
      {f : ℕ → S} {t : ℕ} {x : A} {xs : List A} (c : S)
      → Window f t (x ∷ xs)
      → Free (t + size) c
      → Window (update f (t % size) c) (suc t) xs
  Window-tail_mod {f} {t} {x} {xs} c w empty = record {
    holds =
        subst (λ k. Holds (update f k c) (suc t) xs) round
          (Holds-update f (suc t) (t + size) c xs (omega arith) (omega arith) w.holds.1);
    fits = omega arith;
    free = λ i a b. elim (ℕ_discrete i (t + size)) [
      | yes e ↦ rw (e, update_self f (t % size) c round) empty
      | no ne ↦
          subst (Free i)
            (sym (
              update_ne f (t % size) c (
                mod-ne size t i t (omega arith) (omega arith) (omega arith) (omega arith)
                  (omega arith))))
            (w.free i (omega arith) (omega arith))
    ];
  }
    where
      round : (t + size) % size ≡ t % size
      round = add-mod_round t size

  -- Clearing the last slot drops the last element.
  Window-init_mod :
      {f : ℕ → S} {t : ℕ} {xs : List A} (p : ℕ) (x : A) (c : S)
      → Window f t (xs ++ x ∷ [])
      → p ≡ t + length xs
      → Free p c
      → Window (update f (p % size) c) t xs
  Window-init_mod {f} {t} {xs} p x c w e empty = record {
    holds =
        Holds-update f t p c xs (omega arith) (omega (arith, w.fits, length-append xs (x ∷ [])))
          (Holds-init f t x xs w.holds);
    fits = omega (arith, w.fits, length-append xs (x ∷ []));
    free = λ i a b. elim (ℕ_discrete i p) [
      | yes q ↦ rw (q, update_self f (p % size) c refl) empty
      | no ne ↦
          subst (Free i)
            (sym (
              update_ne f (p % size) c (
                mod-ne size t i p (omega arith) b (omega arith)
                  (omega (arith, w.fits, length-append xs (x ∷ []))) ne)))
            (w.free i (omega (arith, length-append xs (x ∷ []))) b)
    ];
  }

  -- The same, for a slot index `i` and a moved position `u` that the code computes in its own way.
  pub Window-append :
      {f : ℕ → S} {t : ℕ} {xs : List A} (i p : ℕ) (x : A) (c : S)
      → Window f t xs
      → i ≡ p % size
      → p ≡ t + length xs
      → length xs < size
      → Full p x c
      → Window (update f i c) t (xs ++ x ∷ [])
  Window-append {f} {t} {xs} i p x c w at e lt full =
      subst (λ j. Window (update f j c) t (xs ++ x ∷ [])) (sym at)
        (Window-append_mod p x c w e lt full)

  pub Window-tail :
      {f : ℕ → S} {t : ℕ} {x : A} {xs : List A} (i u : ℕ) (c : S)
      → Window f t (x ∷ xs)
      → i ≡ t % size
      → u ≡ suc t
      → Free (t + size) c
      → Window (update f i c) u xs
  Window-tail {f} {t} {x} {xs} i u c w at e empty =
      subst₂ (λ j v. Window (update f j c) v xs) (sym at) (sym e) (Window-tail_mod c w empty)

  pub Window-init :
      {f : ℕ → S} {t : ℕ} {xs : List A} (i p : ℕ) (x : A) (c : S)
      → Window f t (xs ++ x ∷ [])
      → i ≡ p % size
      → p ≡ t + length xs
      → Free p c
      → Window (update f i c) t xs
  Window-init {f} {t} {xs} i p x c w at e empty =
      subst (λ j. Window (update f j c) t xs) (sym at) (Window-init_mod p x c w e empty)
