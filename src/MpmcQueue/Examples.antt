-- ===== src/MpmcQueue/Examples.antt =====
-- Runs of the MPMC queue of atomic_mpmc_queue.hpp with two slots, and its theorems at them.
use cpp_lockfree_structures.Prelude.{
  ℕ, ◌^◌, true, false, some, [], ◌∷◌, arith, ◌≡◌, refl, ltb, ◌&&◌, if◌then◌else◌,
}
use cpp_lockfree_structures.MpmcQueue.{
  Queue, slot_index, init, publish, enqueue_loop, enqueue, dequeue, front, full, empty, size,
}
use cpp_lockfree_structures.MpmcQueue.Invariant.{Represents, init-Represents}
use cpp_lockfree_structures.MpmcQueue.Refine.{
  enqueue_lem, enqueue_refines, dequeue_refines, fifo_refined, queue_observers,
}

abbrev fresh : Queue ℕ
fresh = init 0

fresh-Represents : Represents 1 fresh []
fresh-Represents = init-Represents 1 0

-- After one `enqueue`.
abbrev one_item : Queue ℕ
one_item = (enqueue 1 [] 7 fresh).1

one_item-Represents : Represents 1 one_item (7 ∷ [])
unfolding init
one_item-Represents =
    (enqueue_refines [] 7 [] fresh-Represents (omega arith) (omega arith) (omega arith)).1

fills_up :
    ((enqueue 1 [] 8 one_item).0 ≡ true) × ((enqueue 1 [] 9 (enqueue 1 [] 8 one_item).1).0 ≡ false)
unfolding init enqueue enqueue_loop publish slot_index
fills_up = (refl, refl)

enqueue_lem_example : enqueue 1 (true ∷ []) 7 fresh ≡ (
    if ltb 0 (2 ^ 1) && ltb 1 64
    then (true, publish 1 7 fresh.enqueue_pos fresh)
    else (false, fresh))
enqueue_lem_example = enqueue_lem (true ∷ []) 7 [] fresh-Represents (omega arith)

enqueue_refines_example :
    ((enqueue 1 (true ∷ []) 8 one_item).0 ≡ true)
    × Represents 1 (enqueue 1 (true ∷ []) 8 one_item).1 (7 ∷ 8 ∷ [])
unfolding init enqueue enqueue_loop publish slot_index
enqueue_refines_example =
    enqueue_refines (true ∷ []) 8 (7 ∷ []) one_item-Represents (omega arith) (omega arith)
      (omega arith)

dequeue_refines_example :
    ((dequeue 1 (true ∷ []) one_item).0 ≡ some 7)
    × Represents 1 (dequeue 1 (true ∷ []) one_item).1 []
unfolding init enqueue enqueue_loop publish slot_index
dequeue_refines_example =
    dequeue_refines (true ∷ []) (7 ∷ []) one_item-Represents (omega arith) (omega arith)

queue_observers_example :
    (front 1 one_item ≡ some 7)
    × (empty one_item ≡ false)
    × (full 1 one_item ≡ false)
    × (size one_item ≡ 1)
unfolding init enqueue enqueue_loop publish slot_index
queue_observers_example = queue_observers (7 ∷ []) one_item-Represents (omega arith)

fifo_refined_example :
    (((enqueue 1 (true ∷ []) 8 one_item).0 ≡ true)
      × Represents 1 (enqueue 1 (true ∷ []) 8 one_item).1 (7 ∷ 8 ∷ []))
    × (((dequeue 1 (true ∷ []) one_item).0 ≡ some 7)
        × Represents 1 (dequeue 1 (true ∷ []) one_item).1 [])
unfolding init enqueue enqueue_loop publish slot_index
fifo_refined_example =
    fifo_refined (true ∷ []) 8 (7 ∷ []) one_item-Represents (omega arith) (omega arith)
      (omega arith) (omega arith)
