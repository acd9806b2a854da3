-- ===== src/WorkStealingDeque/Examples.antt =====
-- Runs of the deque of atomic_work_stealing_deque.hpp, and its theorems at them.
use cpp_lockfree_structures.Prelude.{ℕ, ◌≡◌, ◌≢◌, refl, Option, none, some, [], ◌∷◌, arith, false}
use cpp_lockfree_structures.WorkStealingDeque.{
  Deque, slot_index, init, push_bottom, take_bottom, pop_bottom, steal, empty, size,
}
use cpp_lockfree_structures.WorkStealingDeque.Refine.{
  Represents, init-Represents, push_bottom_refines, pop_bottom_snoc, steal_refines, ends_refined,
  deque_observers,
}
use cpp_lockfree_structures.WorkStealingDeque.Race.Moves.{
  popped, won, deciding, restoring, stole, System, Reach, start, later, rob, load_top, see_some,
  see_item, claim, quiet,
}
use cpp_lockfree_structures.WorkStealingDeque.Race.Lost.{NeverGot, last_element_lost}
use cpp_lockfree_structures.WorkStealingDeque.Race.Claims.{no_double_claim}

abbrev fresh : Deque ℕ
fresh = init

abbrev one : Deque ℕ
one = push_bottom 7 fresh

abbrev two : Deque ℕ
two = push_bottom 8 one

one-Represents : Represents one (7 ∷ [])
unfolding init
one-Represents = push_bottom_refines 7 [] init-Represents (omega arith)

two-Represents : Represents two (7 ∷ 8 ∷ [])
unfolding init push_bottom
two-Represents = push_bottom_refines 8 (7 ∷ []) one-Represents (omega arith)

both_ends : ((pop_bottom two).0 ≡ some 8) × ((steal two).0 ≡ some 7)
unfolding init push_bottom pop_bottom take_bottom steal slot_index
both_ends = (refl, refl)

push_bottom_refines_example : Represents (push_bottom 8 one) (7 ∷ 8 ∷ [])
unfolding init push_bottom
push_bottom_refines_example = push_bottom_refines 8 (7 ∷ []) one-Represents (omega arith)

steal_refines_example : ((steal two).0 ≡ some 7) × Represents (steal two).1 (8 ∷ [])
unfolding init push_bottom
steal_refines_example = steal_refines (7 ∷ 8 ∷ []) two-Represents (omega arith)

pop_bottom_snoc_example : ((pop_bottom two).0 ≡ some 8) × Represents (pop_bottom two).1 (7 ∷ [])
unfolding init push_bottom
pop_bottom_snoc_example = pop_bottom_snoc 8 (7 ∷ []) two-Represents (omega arith)

deque_observers_example : (empty two ≡ false) × (size two ≡ 2)
deque_observers_example = deque_observers (7 ∷ 8 ∷ []) two-Represents

last_element_lost_example :
    (s : System ℕ) × (r : Reach (quiet one) s) × NeverGot r
    × (s.owner ≡ popped none)
    × (s.thief 0 ≡ stole none)
    × Represents s.deque []
unfolding init push_bottom
last_element_lost_example = last_element_lost one-Represents (omega arith)

-- Thief 3 has won the oldest of two elements.
abbrev robbed : (s : System ℕ) × Reach (quiet two) s
unfolding init push_bottom slot_index
robbed = (
  _,
  later
      (later (later (later start (rob 3 load_top)) (rob 3 (see_some (omega arith))))
        (rob 3 (see_item {x = 7} refl)))
      (rob 3 (claim refl)),
)

no_double_claim_example :
    (robbed.0.thief 3 ≡ won 0 → ◌≡◌ {A = ℕ} 3 3)
    × ((b t : ℕ) (out : Option ℕ) → robbed.0.owner ≡ deciding b t out → t ≢ b → 0 ≢ b)
    × ((b : ℕ) (x : ℕ) → robbed.0.owner ≡ restoring b (some x) → 0 ≢ b)
unfolding init push_bottom slot_index
no_double_claim_example = no_double_claim robbed.1 3 3 0 refl

ends_refined_example :
    Represents (push_bottom 9 two) (7 ∷ 8 ∷ 9 ∷ [])
    × (((steal two).0 ≡ some 7) × Represents (steal two).1 (8 ∷ []))
unfolding init push_bottom
ends_refined_example = ends_refined 9 (7 ∷ 8 ∷ []) two-Represents (omega arith)
