-- ===== src/RingBuffer/Examples.antt =====
-- Runs of the ring buffer of atomic_ringbuffer.hpp with two slots, and its theorems at them.
use cpp_lockfree_structures.Prelude.{
  ℕ, zero, suc, ◌^◌, Bool, true, false, none, some, List, [], ◌∷◌, arith, ◌≡◌, refl, ltb, ◌&&◌,
  if◌then◌else◌,
}
use cpp_lockfree_structures.BoundedQueue.{failures}
use cpp_lockfree_structures.RingBuffer.{
  RingBuffer, slot_index, init, publish, push_loop, push, pop, front, back, full, empty, size,
  spsc_push, spsc_pop,
}
use cpp_lockfree_structures.RingBuffer.Invariant.{Represents, init-Represents}
use cpp_lockfree_structures.RingBuffer.Counted.{
  Counted, push_lem, push_refines, pop_refines, buffer_refined, pop_starved, buffer_observers,
}
use cpp_lockfree_structures.RingBuffer.Spsc.{
  spsc_push_refines, spsc_pop_refines, spsc_refined, spsc_push_uncounted,
}

abbrev fresh : RingBuffer ℕ
fresh = init

fresh-Counted : Counted 1 fresh []
unfolding init
fresh-Counted = record { shape = init-Represents 1; counted = refl }

-- After one `push`.
abbrev one_item : RingBuffer ℕ
one_item = (push 1 [] 7 fresh).1

one_item-Counted : Counted 1 one_item (7 ∷ [])
unfolding init
one_item-Counted = (push_refines [] 7 fresh-Counted (omega arith) (omega arith)).1

fills_up : ((push 1 [] 8 one_item).0 ≡ true) × ((push 1 [] 9 (push 1 [] 8 one_item).1).0 ≡ false)
unfolding init push push_loop publish slot_index
fills_up = (refl, refl)

push_lem_example :
    push 1 (true ∷ []) 7 fresh
    ≡ (if ltb 0 (2 ^ 1) && ltb 1 1000 then (true, publish 1 7 fresh) else (false, fresh))
unfolding init
push_lem_example = push_lem (true ∷ []) 7 fresh-Counted (omega arith)

push_refines_example :
    ((push 1 [] 8 one_item).0 ≡ true) × Counted 1 (push 1 [] 8 one_item).1 (7 ∷ 8 ∷ [])
unfolding init push push_loop publish slot_index
push_refines_example = push_refines [] 8 one_item-Counted (omega arith) (omega arith)

pop_refines_example :
    ((pop 1 (true ∷ []) one_item).0 ≡ some 7) × Counted 1 (pop 1 (true ∷ []) one_item).1 []
unfolding init push push_loop publish slot_index
pop_refines_example = pop_refines (true ∷ []) (7 ∷ []) one_item-Counted (omega arith) (omega arith)

buffer_observers_example :
    (front 1 one_item ≡ some 7)
    × (back 1 one_item ≡ some 7)
    × (empty one_item ≡ false)
    × (full 1 one_item ≡ false)
    × (size one_item ≡ 1)
unfolding init push push_loop publish slot_index
buffer_observers_example = buffer_observers (7 ∷ []) one_item-Counted (omega arith)

spsc_push_refines_example :
    ((spsc_push 1 7 fresh).0 ≡ true)
    × Represents 1 (spsc_push 1 7 fresh).1 (7 ∷ [])
    × ((spsc_push 1 7 fresh).1.count ≡ 0)
unfolding init
spsc_push_refines_example = spsc_push_refines 7 [] (init-Represents 1) (omega arith)

spsc_pop_refines_example :
    ((spsc_pop 1 one_item).0 ≡ some 7)
    × Represents 1 (spsc_pop 1 one_item).1 []
    × ((spsc_pop 1 one_item).1.count ≡ one_item.count)
unfolding init push push_loop publish slot_index
spsc_pop_refines_example = spsc_pop_refines (7 ∷ []) one_item-Counted.shape (omega arith)

spsc_push_uncounted_example :
    ((spsc_push 1 7 fresh).0 ≡ true)
    × ((spsc_pop 1 (spsc_push 1 7 fresh).1).0 ≡ some 7)
    × (empty (spsc_push 1 7 fresh).1 ≡ true)
    × (pop 1 [] (spsc_push 1 7 fresh).1 ≡ (none, (spsc_push 1 7 fresh).1))
unfolding init
spsc_push_uncounted_example = spsc_push_uncounted 7 [] fresh-Counted (omega arith)

-- A call whose first 1000 compare-exchanges all fail.
all_fail : ℕ → List Bool
all_fail zero = []
all_fail (suc n) = true ∷ all_fail n

all_fail-failures : (n : ℕ) → failures (all_fail n) ≡ n
unfolding all_fail
all_fail-failures zero = refl
all_fail-failures (suc n) = omega (arith, all_fail-failures n)

pop_starved_example : pop 1 (all_fail 1000) one_item ≡ (none, one_item)
pop_starved_example =
    pop_starved (all_fail 1000) (7 ∷ []) one_item-Counted (omega (arith, all_fail-failures 1000))

buffer_refined_example :
    (((push 1 (true ∷ []) 8 one_item).0 ≡ true)
      × Counted 1 (push 1 (true ∷ []) 8 one_item).1 (7 ∷ 8 ∷ []))
    × (((pop 1 (true ∷ []) one_item).0 ≡ some 7) × Counted 1 (pop 1 (true ∷ []) one_item).1 [])
unfolding init push push_loop publish slot_index
buffer_refined_example =
    buffer_refined (true ∷ []) 8 (7 ∷ []) one_item-Counted (omega arith) (omega arith)

spsc_refined_example :
    (((spsc_push 1 8 one_item).0 ≡ true)
      × Represents 1 (spsc_push 1 8 one_item).1 (7 ∷ 8 ∷ [])
      × ((spsc_push 1 8 one_item).1.count ≡ one_item.count))
    × (((spsc_pop 1 one_item).0 ≡ some 7)
        × Represents 1 (spsc_pop 1 one_item).1 []
        × ((spsc_pop 1 one_item).1.count ≡ one_item.count))
unfolding init push push_loop publish slot_index
spsc_refined_example = spsc_refined 8 (7 ∷ []) one_item-Counted.shape (omega arith)
