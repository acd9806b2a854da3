-- ===== src/RingBuffer/Invariant.antt =====
-- What a valid ring buffer holds: the slots between `tail_` and `head_` are the elements, the others
-- are empty. `Represents` leaves `size_` out, which the SPSC operations do not maintain.
use cpp_lockfree_structures.Prelude.{
  ℕ, ◌+◌, ◌%◌, ◌^◌, ◌<◌, true, some, List, [], ◌∷◌, ◌++◌, add64, sub64, arith, ◌≡◌, refl, length,
  length-append, bit_and-mask, pow-pos,
}
use cpp_lockfree_structures.Circular.{Window, Window-append, Window-tail}
use cpp_lockfree_structures.RingBuffer.{
  Slot, RingBuffer, empty_slot, slot_index, init, publish, consume,
}

pub slot_index-eq : (k p : ℕ) → slot_index k p ≡ p % 2 ^ k
unfolding slot_index
slot_index-eq k p = bit_and-mask p k

module _ {ℓ} {A : Type ℓ} where
  abbrev pub Full : ℕ → A → Slot A → Type ℓ
  Full p x c = c ≡ record { item = some x; valid = true }

  abbrev pub Free : ℕ → Slot A → Type ℓ
  Free p c = c ≡ empty_slot

  pub record Represents (k : ℕ) (r : RingBuffer A) (xs : List A) : Type ℓ where
    pub window : Window (2 ^ k) Full Free r.buffer r.tail xs
    pub span : r.head ≡ r.tail + length xs

  pub init-Represents : (k : ℕ) → Represents k (init {A = A}) []
  unfolding init
  init-Represents k = record {
    window = record { holds = tt; fits = omega arith; free = λ i a b. refl };
    span = omega arith;
  }

  module _ {k : ℕ} {r : RingBuffer A} where
    pub publish-Represents :
        {xs : List A} (x : A)
        → Represents k r xs
        → length xs < 2 ^ k
        → r.head + 1 < 2 ^ 64
        → Represents k (publish k x r) (xs ++ x ∷ [])
    unfolding publish
    publish-Represents {xs} x v room fits = record {
      window =
          Window-append (2 ^ k) Full Free (slot_index k r.head) r.head x filled v.window
            (slot_index-eq k r.head) v.span room refl;
      span = omega (arith, v.span, length-append xs (x ∷ []));
    }
      where
        filled : Slot A
        filled = record { item = some x; valid = true }

    pub consume-Represents :
        {x : A} {xs : List A}
        → Represents k r (x ∷ xs)
        → r.tail + 1 < 2 ^ 64
        → Represents k (consume k r) xs
    unfolding consume
    consume-Represents {x} {xs} v fits = record {
      window =
          Window-tail (2 ^ k) Full Free (slot_index k r.tail) (add64 r.tail 1) empty_slot v.window
            (slot_index-eq k r.tail) (omega arith) refl;
      span = omega (arith, v.span);
    }

    -- The slot that `pop_impl` looks at, and the one that `push_impl` looks at.
    pub front_slot :
        {x : A} {xs : List A}
        → Represents k r (x ∷ xs)
        → r.buffer (slot_index k r.tail) ≡ record { item = some x; valid = true }
    front_slot v = rw (slot_index-eq k r.tail) v.window.holds.0

    pub next_slot :
        {xs : List A}
        → Represents k r xs
        → length xs < 2 ^ k
        → r.buffer (slot_index k r.head) ≡ empty_slot
    next_slot v room =
        rw (slot_index-eq k r.head)
          (v.window.free r.head (omega (arith, v.span)) (omega (arith, v.span)))

    pub empty_front_slot : Represents k r [] → r.buffer (slot_index k r.tail) ≡ empty_slot
    empty_front_slot v =
        rw (slot_index-eq k r.tail) (v.window.free r.tail (omega arith) (omega (arith, pow-pos k)))

    pub distance :
        {xs : List A}
        → Represents k r xs
        → r.head + 1 < 2 ^ 64
        → sub64 (add64 r.head 1) r.tail ≡ length xs + 1
    distance v fits = omega (arith, v.span, v.window.fits)
