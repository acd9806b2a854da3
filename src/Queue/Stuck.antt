-- ===== src/Queue/Stuck.antt =====
-- What a spurious failure of the compare-exchange on `head_` does to the queue of atomic_queue.hpp:
-- `dequeue` has then nulled the data pointer of the first node, and it leaves the node in front.
use cpp_lockfree_structures.Prelude.{
  ℕ, zero, suc, ◌<◌, ◌≡◌, refl, ap, Bool, true, false, inl, inr, none, some, List, [], ◌∷◌, map,
  length, ne→==, arith, Bool-cases,
}
use cpp_lockfree_structures.Outcomes.{head_fails, tail, spurious, tail-spurious}
use cpp_lockfree_structures.Queue.{
  Queue, max_attempts, dequeue_loop, dequeue, empty, size_loop, size,
}
use cpp_lockfree_structures.Queue.Refine.{laid}

module _ {ℓ} {A : Type ℓ} where
  -- A first node without data, the items `ys` behind it, and the tail not at the dummy.
  abbrev pub blocked : List A → ℕ → Queue A
  blocked ys t = record { nodes = none ∷ map some ys; tail_ = suc t }

  blocked_loop :
      (n : ℕ) (weak : List Bool) (stalls : Bool) (ys : List A) (t : ℕ)
      → dequeue_loop n weak stalls (blocked ys t) ≡ (none, blocked ys t)
  unfolding dequeue_loop
  blocked_loop zero weak stalls ys t = refl
  blocked_loop (suc n) weak stalls ys t =
      rw (ne→== (suc t) 0 (λ e. absurd (omega (arith, e)))) (blocked_loop n weak stalls ys t)

  stalled_loop :
      (n : ℕ) (weak : List Bool) (x : A) (ys : List A) (t : ℕ)
      → spurious weak < n
      → dequeue_loop n weak true (laid (x ∷ ys) (suc t)) ≡ (none, blocked ys t)
  unfolding dequeue_loop
  stalled_loop zero weak x ys t g = absurd (omega arith)
  stalled_loop (suc n) weak x ys t g = elim (Bool-cases (head_fails weak)) [
    | inl w ↦
        rw (ne→== (suc t) 0 (λ e. absurd (omega (arith, e))), w)
          (stalled_loop n (tail weak) x ys t (omega (arith, g, tail-spurious weak w)))
    | inr w ↦
        rw (ne→== (suc t) 0 (λ e. absurd (omega (arith, e))), w)
          (blocked_loop n (tail weak) false ys t)
  ]

  size_blocked : (ys : List A) → size_loop (map some ys) ≡ length ys
  unfolding size_loop
  size_blocked [] = refl
  size_blocked (y ∷ ys) = ap suc (size_blocked ys)

  -- On a queue that holds items, its tail not at the dummy: if the compare-exchange on `head_`
  -- fails spuriously, and fewer than 1000 others do, then `dequeue` returns false and the
  -- oldest item is lost. From then on every `dequeue` returns false and changes nothing,
  -- although `empty` answers false and `size` counts the items behind the lost one.
  pub stalled_dequeue :
      (weak : List Bool) (x : A) (ys : List A) (t : ℕ)
      → spurious weak < 1000
      → (q : Queue A) × (dequeue weak true (laid (x ∷ ys) (suc t)) ≡ (none, q))
        × ((weak' : List Bool) (stalls : Bool) → dequeue weak' stalls q ≡ (none, q))
        × (empty q ≡ false)
        × (size q ≡ length ys)
  unfolding dequeue empty size size_loop
  stalled_dequeue weak x ys t g = (
    blocked ys t,
    stalled_loop max_attempts weak x ys t g,
    (λ weak' stalls. blocked_loop max_attempts weak' stalls ys t),
    rw (ne→== (suc t) 0 (λ e. absurd (omega (arith, e)))) refl,
    size_blocked ys,
  )
