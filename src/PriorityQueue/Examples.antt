-- ===== src/PriorityQueue/Examples.antt =====
-- Runs of the priority queue, and the theorems about it at them.
use cpp_lockfree_structures.Prelude.{
  ℕ, ◌≡◌, refl, Bool, true, false, some, List, [], ◌∷◌, ltb, leb, arith,
}
use mathlib.Core.List.{Perm}
use cpp_lockfree_structures.Levels.{Node, live}
use cpp_lockfree_structures.Levels.Order.{IsStrictWeak, AtBottom, IsSorted, Ahead}
use cpp_lockfree_structures.Levels.Place.{place}
use cpp_lockfree_structures.PriorityQueue.{
  goes_before, push, push_move, pop_loop, pop, top, empty, size,
}
use cpp_lockfree_structures.PriorityQueue.Push.{Represents, push_by_priority}
use cpp_lockfree_structures.PriorityQueue.Pop.{pop_by_priority, priority_observers, IsHighest}

smaller-IsStrictWeak : IsStrictWeak ltb
smaller-IsStrictWeak = record {
  asymmetric = λ x y h. ground arith;
  cotransitive = λ x y z h h'. ground arith;
}

abbrev node : ℕ → ℕ → Bool → Node ℕ
node x level marked = record { item = x; level = level; linked = λ i. leb i level; marked = marked }

-- 3 and 5 are in; a popped 1 is still in the chains.
abbrev three_and_five : List (Node ℕ)
three_and_five = node 1 2 true ∷ (node 3 0 false ∷ (node 5 1 false ∷ []))

three_and_five-Represents : Represents ltb three_and_five (3 ∷ (5 ∷ []))
unfolding live AtBottom IsSorted Ahead
three_and_five-Represents = record {
  items = refl;
  bottom = ((λ u. refl), ((λ u. refl), ((λ u. refl), tt)));
  sorted = (((λ u. refl), ((λ u. refl), tt)), (((λ u. refl), tt), (tt, tt)));
}

push_by_priority_example :
    (((push ltb (true ∷ []) (λ n. true ∷ []) 4 three_and_five).0 ≡ true)
      × Represents ltb
          (push ltb (true ∷ []) (λ n. true ∷ []) 4 three_and_five).1
          (place (goes_before ltb 4) 4 (3 ∷ (5 ∷ [])))
      × Perm (place (goes_before ltb 4) 4 (3 ∷ (5 ∷ []))) (4 ∷ (3 ∷ (5 ∷ []))))
    × ((push_move ltb (λ x. 0) (true ∷ []) (λ n. true ∷ []) 4 three_and_five).0 ≡ true)
    × Represents ltb
        (push_move ltb (λ x. 0) (true ∷ []) (λ n. true ∷ []) 4 three_and_five).1
        (place (goes_before ltb 0) 0 (3 ∷ (5 ∷ [])))
push_by_priority_example =
    push_by_priority ltb smaller-IsStrictWeak (λ x. 0) (true ∷ []) (λ n. true ∷ []) 4 three_and_five
      (3 ∷ (5 ∷ [])) (omega arith) three_and_five-Represents

pop_by_priority_example :
    ((pop (λ x. x) (true ∷ []) three_and_five).0 ≡ some 3)
    × IsHighest ltb (3 ∷ (5 ∷ []))
    × Represents ltb (pop (λ x. x) (true ∷ []) three_and_five).1 (5 ∷ [])
pop_by_priority_example =
    pop_by_priority ltb (λ x. x) (true ∷ []) three_and_five (3 ∷ (5 ∷ [])) (λ x. refl) (omega arith)
      three_and_five-Represents

priority_observers_example :
    ((top three_and_five).0 ≡ some 3)
    × Represents ltb (top three_and_five).1 (3 ∷ (5 ∷ []))
    × (empty three_and_five ≡ false)
    × (size three_and_five ≡ 2)
priority_observers_example =
    priority_observers ltb three_and_five (3 ∷ (5 ∷ [])) three_and_five-Represents

popped_three : (pop (λ x. x) [] three_and_five).0 ≡ some 3
unfolding pop pop_loop
popped_three = refl
