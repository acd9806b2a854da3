-- ===== src/Stack/Race/Commit.antt =====
-- The two updates of `head_` in atomic_stack.hpp: the compare-exchanges of `push` and `pop`.
use cpp_lockfree_structures.Prelude.{
  ℕ, suc, ◌+◌, ◌%◌, ◌<◌, ◌^◌, ◌≡◌, refl, sym, subst, ap, ◌∙◌, none, some, List, ◌∷◌, update,
  update_ne, inr, arith,
}
use cpp_lockfree_structures.Stack.{Node, get_ptr, get_counter, bump}
use cpp_lockfree_structures.Stack.Packed.{get_ptr-pack, get_counter-pack}
use cpp_lockfree_structures.Stack.Layout.{
  address, Absent, Laid, Laid-update, address-lt, Represents,
}
use cpp_lockfree_structures.Stack.Race.Moves.{idle, pushing, returning, write, swing, System}
use cpp_lockfree_structures.Stack.Race.Invariant.{owned, Snapshot, ThreadInv, Inv}
use cpp_lockfree_structures.Stack.Race.Frame.{assemble, other_ne}

module _ {ℓ} {A : Type ℓ} where
  module _ {s : System A} {cs : List (ℕ × A)} (v : Inv cs s) (i : ℕ) where
    -- A successful compare-exchange of `push`.
    pub pushed :
        (x : A) (a old seen : ℕ)
        → s.shared.stack.head ≡ old
        → owned (s.thread i) ≡ some a
        → ThreadInv s.shared cs (pushing x a old seen)
        → Inv
            ((a, x) ∷ cs)
            (record { shared = swing s.shared (bump old a); thread = update s.thread i idle })
    pushed x a old seen e mine here =
        assemble i idle v (inr refl) count shape tt
          (λ j b ne theirs off. (refl, (other_ne v i a mine j b ne theirs, off)))
          (λ j b ne own. absurd (cc own))
      where
        count : get_counter (bump old a) ≡ suc s.shared.updates % 2 ^ 16
        count = omega (arith, get_counter-pack a (get_counter old + 1), ap get_counter e, v.counted)

        shape : Represents (record { head = bump old a; heap = s.shared.stack.heap }) ((a, x) ∷ cs)
        shape = record {
          top_at = get_ptr-pack a (get_counter old + 1) here.1;
          laid = (
            here.0,
            here.1,
            here.3
                ∙ ap (λ p. some (record { item = x; next = p }))
                    (ap get_ptr (sym e) ∙ v.shape.top_at),
            here.2,
            v.shape.laid,
          );
        }

    -- A successful compare-exchange of `pop`, fewer than 2^16 updates after its word was read.
    pub taken :
        (old seen next : ℕ) (n : Node A) (cs' : List (ℕ × A))
        → s.shared.stack.head ≡ old
        → cs ≡ (get_ptr old, n.item) ∷ cs'
        → next ≡ address cs'
        → Inv cs' (record {
          shared = write (swing s.shared (bump old next)) (get_ptr old) none;
          thread = update s.thread i (returning (some n.item));
        })
    taken old seen next n cs' e shape nx =
        assemble i (returning (some n.item)) v (inr refl) count rest tt
          (λ j b ne theirs off. others b (subst (Absent b) shape off))
          (λ j b ne own. absurd (cc own))
      where
        laid : Laid s.shared.stack.heap ((get_ptr old, n.item) ∷ cs')
        laid = subst (Laid s.shared.stack.heap) shape v.shape.laid

        count : get_counter (bump old next) ≡ suc s.shared.updates % 2 ^ 16
        count =
            omega (arith, get_counter-pack next (get_counter old + 1), ap get_counter e, v.counted)

        rest :
            Represents
              (record {
                head = bump old next;
                heap = update s.shared.stack.heap (get_ptr old) none;
              })
              cs'
        rest = record {
          top_at =
              get_ptr-pack next (get_counter old + 1)
                (omega (arith, nx, address-lt s.shared.stack.heap cs' laid.4))
              ∙ nx;
          laid = Laid-update s.shared.stack.heap (get_ptr old) none cs' laid.3 laid.4;
        }

        others :
            (b : ℕ)
            → Absent b ((get_ptr old, n.item) ∷ cs')
            → (update s.shared.stack.heap (get_ptr old) none b ≡ s.shared.stack.heap b)
              × Absent b cs'
        others b off = (update_ne s.shared.stack.heap (get_ptr old) none off.0, off.1)

    -- No update has happened since a word was read that is still in `head_`.
    pub unchanged :
        (old seen : ℕ)
        → Snapshot s.shared old seen
        → s.shared.updates < seen + 2 ^ 16
        → s.shared.stack.head ≡ old
        → seen ≡ s.shared.updates
    unchanged old seen snap recent e =
        omega (arith, snap.past, snap.stamped, ap get_counter e, v.counted)
