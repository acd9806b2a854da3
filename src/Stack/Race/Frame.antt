-- ===== src/Stack/Race/Frame.antt =====
-- How a step of one thread on a stack of atomic_stack.hpp leaves what the others know.
use cpp_lockfree_structures.Prelude.{
  ℕ, ◌%◌, ◌^◌, ◌≡◌, ◌≢◌, refl, sym, subst, ap, ◌∙◌, Option, none, some, List, update, update_self,
  update_ne, inl, arith,
}
use native.Mathlib.Decide.{ℕ_discrete}
use cpp_lockfree_structures.Stack.{Node, get_counter}
use cpp_lockfree_structures.Stack.Layout.{Absent, Represents}
use cpp_lockfree_structures.Stack.Refine.{Represents-update}
use cpp_lockfree_structures.Stack.Race.Moves.{
  Thread, idle, linking, pushing, attempting, peeking, popping, returning, crashed, Shared, write,
  System,
}
use cpp_lockfree_structures.Stack.Race.Invariant.{owned, ThreadInv, Inv, Moved, ThreadInv-Moved}

module _ {ℓ} {A : Type ℓ} where
  -- A step of thread `i` keeps the invariant, if it leaves the others' own nodes alone.
  pub assemble :
      {s : System A} {cs cs' : List (ℕ × A)} (i : ℕ) {m : Shared A} (p : Thread A)
      → Inv cs s
      → Moved s.shared cs m cs'
      → get_counter m.stack.head ≡ m.updates % 2 ^ 16
      → Represents m.stack cs'
      → ThreadInv m cs' p
      → ((j a : ℕ)
          → j ≢ i
          → owned (s.thread j) ≡ some a
          → Absent a cs
          → (m.stack.heap a ≡ s.shared.stack.heap a) × Absent a cs')
      → ((j a : ℕ) → j ≢ i → owned p ≡ some a → owned (s.thread j) ≢ some a)
      → Inv cs' (record { shared = m; thread = update s.thread i p })
  assemble {s} {cs} {cs'} i {m} p v moved count shape here others fresh = record {
    counted = count;
    shape = shape;
    local = λ j. elim (ℕ_discrete j i) [
      | yes e ↦ subst (ThreadInv m cs') (sym (update_self s.thread i p e)) here
      | no ne ↦
          subst (ThreadInv m cs') (sym (update_ne s.thread i p ne))
            (ThreadInv-Moved s.shared m cs cs' (s.thread j) moved (λ a. others j a ne) (v.local j))
    ];
    apart = λ j k a e f. elim (ℕ_discrete j i) [
      | yes ej ↦ elim (ℕ_discrete k i) [
        | yes ek ↦ omega arith
        | no nk ↦ absurd (
            fresh k a nk (rw (update_self s.thread i p ej) at e)
              (rw (update_ne s.thread i p nk) at f))
      ]
      | no nj ↦ elim (ℕ_discrete k i) [
        | yes ek ↦ absurd (
            fresh j a nj (rw (update_self s.thread i p ek) at f)
              (rw (update_ne s.thread i p nj) at e))
        | no nk ↦
            v.apart j k a (rw (update_ne s.thread i p nj) at e)
              (rw (update_ne s.thread i p nk) at f)
      ]
    ];
  }

  -- A thread that has a node of its own has it allocated, and away from the list.
  pub owned_alloc :
      (m : Shared A) (cs : List (ℕ × A)) (q : Thread A) (a : ℕ)
      → ThreadInv m cs q
      → owned q ≡ some a
      → m.stack.heap a ≢ none
  owned_alloc m cs (linking x b old seen) a v e = λ f. v.3 (cc (e, f))
  owned_alloc m cs (pushing x b old seen) a v e = λ f. cc (e, f, v.3)
  owned_alloc m cs idle a v e = cc
  owned_alloc m cs attempting a v e = cc
  owned_alloc m cs (peeking old seen) a v e = cc
  owned_alloc m cs (popping old seen next) a v e = cc
  owned_alloc m cs (returning out) a v e = cc
  owned_alloc m cs crashed a v e = cc

  module _ {s : System A} {cs : List (ℕ × A)} (v : Inv cs s) (i : ℕ) where
    -- Another thread's node is not this thread's.
    pub other_ne :
        (a : ℕ)
        → owned (s.thread i) ≡ some a
        → (j b : ℕ) → j ≢ i
        → owned (s.thread j) ≡ some b
        → b ≢ a
    other_ne a mine j b ne theirs e = ne (v.apart j i b theirs (mine ∙ ap some (sym e)))

    -- A step that leaves the shared state alone, and takes no new node.
    pub stay :
        (p : Thread A)
        → ThreadInv s.shared cs p
        → ((a : ℕ) → owned p ≡ some a → owned (s.thread i) ≡ some a)
        → Inv cs (record { shared = s.shared; thread = update s.thread i p })
    stay p here same =
        assemble i p v (inl (refl, refl, refl)) v.counted v.shape here
          (λ j a ne own away. (refl, away))
          (λ j a ne own theirs. other_ne a (same a own) j a ne theirs refl)

    -- A write to a node `a` that is not in the list, nor any other thread's.
    pub write_own :
        (p : Thread A) (a : ℕ) (c : Option (Node A))
        → Absent a cs
        → ThreadInv (write s.shared a c) cs p
        → owned p ≡ some a
        → ((j b : ℕ) → j ≢ i → owned (s.thread j) ≡ some b → b ≢ a)
        → Inv cs (record { shared = write s.shared a c; thread = update s.thread i p })
    write_own p a c away here own apart =
        assemble i p v (inl (refl, refl, refl)) v.counted (Represents-update a c away v.shape) here
          (λ j b ne theirs off. (update_ne s.shared.stack.heap a c (apart j b ne theirs), off))
          (λ j b ne mine theirs. apart j b ne theirs (cc (mine, own)))
