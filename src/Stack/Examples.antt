-- ===== src/Stack/Examples.antt =====
-- Runs of the stack of atomic_stack.hpp, and its theorems at them.
use cpp_lockfree_structures.Prelude.{
  ℕ, zero, suc, ◌≡◌, refl, none, some, true, false, List, [], ◌∷◌, arith,
}
use cpp_lockfree_structures.Stack.{
  Heap, Stack, pack, get_ptr, get_counter, init, link, push_loop, push, bump, pop, empty, top, size,
  destroy,
}
use cpp_lockfree_structures.Stack.Packed.{pack_roundtrip}
use cpp_lockfree_structures.Stack.Layout.{Absent, Represents}
use cpp_lockfree_structures.Stack.Refine.{
  push_on_top, pop_from_top, stack_refined, top_refines, empty_sound, empty_after_pop,
}
use cpp_lockfree_structures.Stack.Race.Moves.{
  Thread, idle, popping, returning, crashed, System, Reach, quiet, Move, pop_win, write, swing,
}
use cpp_lockfree_structures.Stack.Race.Invariant.{owned, ThreadInv, Inv}
use cpp_lockfree_structures.Stack.Race.Linear.{After, step_linearizable}
use cpp_lockfree_structures.Stack.Race.Dangling.{pop_dangles}
use cpp_lockfree_structures.Stack.Walk.{Freed, walks_end}

abbrev fresh : Stack ℕ
fresh = init (λ p. none)

fresh-Represents : Represents fresh []
unfolding init get_ptr
fresh-Represents = record { top_at = refl; laid = tt }

abbrev one : Stack ℕ
one = push [] 7 16 fresh

abbrev two : Stack ℕ
two = push (true ∷ true ∷ []) 8 32 one

one-Represents : Represents one ((16, 7) ∷ [])
unfolding init
one-Represents = push_on_top [] 7 16 [] fresh-Represents refl (omega arith) (omega arith)

two-Represents : Represents two ((32, 8) ∷ (16, 7) ∷ [])
unfolding init push push_loop link
two-Represents =
    push_on_top (true ∷ true ∷ []) 8 32 ((16, 7) ∷ []) one-Represents refl (omega arith)
      (omega arith)

pack_roundtrip_example :
    (get_ptr (pack 16 3) ≡ 16)
    × (get_counter (pack 16 3) ≡ 3)
    × (pack (get_ptr 5) (get_counter 5) ≡ 5)
pack_roundtrip_example = pack_roundtrip 16 3 5 (omega arith) (omega arith)

push_on_top_example : Represents (push [] 9 48 two) ((48, 9) ∷ (32, 8) ∷ (16, 7) ∷ [])
unfolding init push push_loop link
push_on_top_example =
    push_on_top [] 9 48 ((32, 8) ∷ (16, 7) ∷ []) two-Represents refl (omega arith) (omega arith)

pop_from_top_example : (s : Stack ℕ) × (pop two ≡ some (some 8, s)) × Represents s ((16, 7) ∷ [])
pop_from_top_example = pop_from_top ((32, 8) ∷ (16, 7) ∷ []) two-Represents

top_refines_example : top two ≡ some (some 8)
top_refines_example = top_refines ((32, 8) ∷ (16, 7) ∷ []) two-Represents

empty_sound_example : ◌≡◌ {A = List (ℕ × ℕ)} [] []
unfolding init empty
empty_sound_example = empty_sound [] fresh-Represents refl

empty_after_pop_example :
    (s : Stack ℕ) × (pop one ≡ some (some 7, s)) × Represents s [] × (empty s ≡ false)
unfolding init push push_loop link pack get_counter
empty_after_pop_example = empty_after_pop 7 16 one-Represents (omega arith)

walks_end_example :
    (size 3 two ≡ some 2)
    × ((h : Heap ℕ) × (destroy 3 two ≡ some h)
        × Freed h ((32, 8) ∷ (16, 7) ∷ [])
        × ((p : ℕ) → Absent {A = ℕ} p ((32, 8) ∷ (16, 7) ∷ []) → h p ≡ two.heap p))
walks_end_example = walks_end 3 ((32, 8) ∷ (16, 7) ∷ []) two-Represents (omega arith)

pop_dangles_example : (s : System ℕ) × Reach (quiet two) s × (s.thread 0 ≡ crashed)
pop_dangles_example = pop_dangles 32 8 ((16, 7) ∷ []) two-Represents

-- Thread 0 has read the head word of `one` and the successor behind it.
abbrev threads : ℕ → Thread ℕ
threads zero = popping one.head 1 0
threads (suc i) = idle

abbrev about_to_pop : System ℕ
about_to_pop = record { shared = record { stack = one; updates = 1 }; thread = threads }

threads-ThreadInv : (i : ℕ) → ThreadInv about_to_pop.shared ((16, 7) ∷ []) (threads i)
unfolding init push push_loop link pack get_counter get_ptr
threads-ThreadInv zero = (
  record { past = omega arith; stamped = refl; non_null = omega arith; current = λ e. refl },
  λ e. refl,
)
threads-ThreadInv (suc i) = tt

threads_apart : (i j a : ℕ) → owned (threads i) ≡ some a → owned (threads j) ≡ some a → i ≡ j
threads_apart zero j a e f = cc
threads_apart (suc i) j a e f = cc

about_to_pop-Inv : Inv ((16, 7) ∷ []) about_to_pop
unfolding init push push_loop link pack get_counter
about_to_pop-Inv = record {
  counted = refl;
  shape = one-Represents;
  local = threads-ThreadInv;
  apart = threads_apart;
}

abbrev winning :
    Move about_to_pop.shared
      (about_to_pop.thread 0)
      (write (swing about_to_pop.shared (bump one.head 0)) (get_ptr one.head) none)
      (returning (some 7))
unfolding init push push_loop link pack get_ptr get_counter
winning = pop_win {n = record { item = 7; next = 0 }} refl refl

step_linearizable_example : After about_to_pop ((16, 7) ∷ []) 0 winning
unfolding init push push_loop link pack get_ptr get_counter
step_linearizable_example = step_linearizable 0 winning about_to_pop-Inv (omega arith)

stack_refined_example :
    Represents (push [] 9 48 two) ((48, 9) ∷ (32, 8) ∷ (16, 7) ∷ [])
    × ((s : Stack ℕ) × (pop two ≡ some (some 8, s)) × Represents s ((16, 7) ∷ []))
unfolding init push push_loop link
stack_refined_example =
    stack_refined [] 9 48 ((32, 8) ∷ (16, 7) ∷ []) two-Represents refl (omega arith) (omega arith)
