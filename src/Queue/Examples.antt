-- ===== src/Queue/Examples.antt =====
-- Runs of the queue, and the theorems about it at them.
use cpp_lockfree_structures.Prelude.{ℕ, ◌≡◌, refl, Bool, true, false, none, List, [], ◌∷◌, arith}
use cpp_lockfree_structures.Queue.{
  Queue, init, enqueue, enqueue_loop, advance_tail, dequeue, empty, size,
}
use cpp_lockfree_structures.Queue.Refine.{
  laid, Enqueued, Dequeued, enqueue_behind, dequeue_oldest, queue_refined,
}
use cpp_lockfree_structures.Queue.Stuck.{stalled_dequeue}

-- The tail stays behind, and is moved by the next `enqueue`.
lagging_tail : (enqueue {A = ℕ} (true ∷ (false ∷ (true ∷ []))) 4 init).1 ≡ laid (4 ∷ []) 0
unfolding enqueue enqueue_loop advance_tail init
lagging_tail = refl

enqueue_behind_example : Enqueued {A = ℕ} 5 (4 ∷ []) (enqueue (true ∷ []) 5 (laid (4 ∷ []) 0))
enqueue_behind_example = enqueue_behind (true ∷ []) 5 (4 ∷ []) 0 (omega arith) (omega arith)

dequeue_oldest_example :
    Dequeued {A = ℕ} (4 ∷ (5 ∷ [])) (dequeue (true ∷ []) false (laid (4 ∷ (5 ∷ [])) 1))
dequeue_oldest_example = dequeue_oldest (true ∷ []) (4 ∷ (5 ∷ [])) 1 (omega arith) (omega arith)

stalled_dequeue_example :
    (q : Queue ℕ) × (dequeue [] true (laid (4 ∷ (5 ∷ [])) 2) ≡ (none, q))
    × ((weak' : List Bool) (stalls : Bool) → dequeue weak' stalls q ≡ (none, q))
    × (empty q ≡ false)
    × (size q ≡ 1)
stalled_dequeue_example = stalled_dequeue [] 4 (5 ∷ []) 1 (omega arith)

queue_refined_example :
    Enqueued {A = ℕ} 6 (4 ∷ (5 ∷ [])) (enqueue (true ∷ []) 6 (laid (4 ∷ (5 ∷ [])) 1))
    × Dequeued {A = ℕ} (4 ∷ (5 ∷ [])) (dequeue (true ∷ []) false (laid (4 ∷ (5 ∷ [])) 1))
queue_refined_example =
    queue_refined (true ∷ []) 6 (4 ∷ (5 ∷ [])) 1 (omega arith) (omega arith) (omega arith)
