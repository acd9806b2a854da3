-- ===== src/MpmcQueue/Invariant.antt =====
-- The sequence numbers of a quiet MPMC queue: the slot of position `p` carries `p + 1` while it holds
-- an element, and `p` while it waits for one.
use cpp_lockfree_structures.Prelude.{
  ℕ, suc, ◌+◌, ◌%◌, ◌^◌, ◌<◌, some, none, List, [], ◌∷◌, ◌++◌, add64, arith, ◌≡◌, refl, ap, ◌∙◌,
  length, length-append, bit_and-mask, pow-pos,
}
use native.Mathlib.Nat.{mod-eq_of_lt}
use cpp_lockfree_structures.Circular.{add-mod_round, Window, Window-append, Window-tail}
use cpp_lockfree_structures.MpmcQueue.{Slot, Queue, slot_index, init, publish, consume}

pub slot_index-eq : (k p : ℕ) → slot_index k p ≡ p % 2 ^ k
unfolding slot_index
slot_index-eq k p = bit_and-mask p k

module _ {ℓ} {A : Type ℓ} where
  -- A slot that holds `x` at position `p`.
  pub record Full (p : ℕ) (x : A) (c : Slot A) : Type ℓ where
    pub filled : c.sequence ≡ suc p
    pub held : c.item ≡ some x

  -- A slot that waits for position `p`.
  pub record Free (p : ℕ) (c : Slot A) : Type ℓ where
    pub waits : c.sequence ≡ p

  pub record Represents (k : ℕ) (q : Queue A) (xs : List A) : Type ℓ where
    pub window : Window (2 ^ k) Full Free q.buffer q.dequeue_pos xs
    pub span : q.enqueue_pos ≡ q.dequeue_pos + length xs

  pub init-Represents : (k : ℕ) (value : A) → Represents k (init value) []
  unfolding init
  init-Represents k value = record {
    window = record {
      holds = tt;
      fits = omega arith;
      free = λ i a b. record { waits = mod-eq_of_lt (omega arith) };
    };
    span = omega arith;
  }

  module _ {k : ℕ} {q : Queue A} where
    pub publish-Represents :
        {xs : List A} (x : A)
        → Represents k q xs
        → length xs < 2 ^ k
        → q.enqueue_pos + 1 < 2 ^ 64
        → Represents k (publish k x q.enqueue_pos q) (xs ++ x ∷ [])
    unfolding publish
    publish-Represents {xs} x v room fits = record {
      window =
          Window-append (2 ^ k) Full Free (slot_index k q.enqueue_pos) q.enqueue_pos x filled
            v.window (slot_index-eq k q.enqueue_pos) v.span room
            (record { filled = omega arith; held = refl });
      span = omega (arith, v.span, length-append xs (x ∷ []));
    }
      where
        filled : Slot A
        filled = record { sequence = add64 q.enqueue_pos 1; item = some x }

    pub consume-Represents :
        {x : A} {xs : List A}
        → Represents k q (x ∷ xs)
        → q.dequeue_pos + 2 ^ k < 2 ^ 64
        → Represents k (consume k q.dequeue_pos q) xs
    unfolding consume
    consume-Represents {x} {xs} v fits = record {
      window =
          Window-tail (2 ^ k) Full Free (slot_index k q.dequeue_pos) (add64 q.dequeue_pos 1)
            (record { sequence = add64 q.dequeue_pos (2 ^ k); item = none }) v.window
            (slot_index-eq k q.dequeue_pos) (omega (arith, pow-pos k))
            (record { waits = omega arith });
      span = omega (arith, v.span, pow-pos k);
    }

    pub front_slot :
        {x : A} {xs : List A}
        → Represents k q (x ∷ xs)
        → Full q.dequeue_pos x (q.buffer (slot_index k q.dequeue_pos))
    front_slot v = rw (slot_index-eq k q.dequeue_pos) v.window.holds.0

    pub next_slot :
        {xs : List A}
        → Represents k q xs
        → length xs < 2 ^ k
        → Free q.enqueue_pos (q.buffer (slot_index k q.enqueue_pos))
    next_slot v room =
        rw (slot_index-eq k q.enqueue_pos)
          (v.window.free q.enqueue_pos (omega (arith, v.span)) (omega (arith, v.span)))

    pub empty_front_slot :
        Represents k q [] → Free q.dequeue_pos (q.buffer (slot_index k q.dequeue_pos))
    empty_front_slot v =
        rw (slot_index-eq k q.dequeue_pos)
          (v.window.free q.dequeue_pos (omega arith) (omega (arith, pow-pos k)))

    -- In a full queue the next position stands in the slot of the oldest element.
    pub wrapped_slot :
        (x : A) (xs : List A)
        → Represents k q (x ∷ xs)
        → suc (length xs) ≡ 2 ^ k
        → Full q.dequeue_pos x (q.buffer (slot_index k q.enqueue_pos))
    wrapped_slot x xs v e = rw (slot_index-eq k q.enqueue_pos, round) v.window.holds.0
      where
        round : q.enqueue_pos % 2 ^ k ≡ q.dequeue_pos % 2 ^ k
        round =
            ap (λ p. p % 2 ^ k) (v.span ∙ ap (λ n. q.dequeue_pos + n) e)
            ∙ add-mod_round q.dequeue_pos (2 ^ k)
