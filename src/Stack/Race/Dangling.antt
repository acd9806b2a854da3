-- ===== src/Stack/Race/Dangling.antt =====
-- `pop` of atomic_stack.hpp can read a node that another `pop` has deleted.
use cpp_lockfree_structures.Prelude.{
  ℕ, ◌≡◌, ◌≢◌, refl, ap, ◌∙◌, none, some, List, ◌∷◌, update_self, arith,
}
use cpp_lockfree_structures.Stack.{Stack, get_ptr}
use cpp_lockfree_structures.Stack.Layout.{address, Represents}
use cpp_lockfree_structures.Stack.Race.Moves.{
  crashed, pop_begin, pop_load, read_next, dangle, pop_win, System, pick, Reach, start, later,
  quiet,
}

-- Whenever the stack holds an element, two threads that pop can interleave so that one of them
-- dereferences a node that the other has deleted: it read `head_`, and lost its turn before it
-- read `next`.
pub pop_dangles {ℓ} :
    {A : Type ℓ} {st : Stack A} (a : ℕ) (x : A) (cs : List (ℕ × A))
    → Represents st ((a, x) ∷ cs)
    → (s : System A) × Reach (quiet st) s × (s.thread 0 ≡ crashed)
pop_dangles {A} {st} a x cs v = (
  _,
  later
      (later
        (later
          (later
            (later (later (later start (pick 0 pop_begin)) (pick 0 (pop_load top)))
              (pick 1 pop_begin))
            (pick 1 (pop_load top)))
          (pick 1 (read_next node)))
        (pick 1 (pop_win refl node)))
      (pick 0 (dangle (update_self st.heap (get_ptr st.head) none refl))),
  refl,
)
  where
    top : get_ptr st.head ≢ 0
    top = omega (arith, v.top_at)

    node : st.heap (get_ptr st.head) ≡ some (record { item = x; next = address cs })
    node = ap st.heap v.top_at ∙ v.laid.2
