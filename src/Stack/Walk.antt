-- ===== src/Stack/Walk.antt =====
-- The loops of atomic_stack.hpp that walk the whole stack: `size` and the destructor.
use cpp_lockfree_structures.Prelude.{
  ℕ, zero, suc, ◌+◌, ◌<◌, ◌≡◌, refl, ap, Option, none, some, List, [], ◌∷◌, length, update,
  update_self, update_ne, ◌∙◌, arith, ne→==,
}
use cpp_lockfree_structures.Stack.{Heap, Stack, size_loop, size, destroy_loop, destroy}
use cpp_lockfree_structures.Stack.Layout.{address, Absent, Laid, Laid-update, Represents}

module _ {ℓ} {A : Type ℓ} where
  size_loop_lem :
      (fuel : ℕ) (h : Heap A) (n : ℕ) (cs : List (ℕ × A))
      → length cs < fuel
      → Laid h cs
      → size_loop fuel h (address cs) n ≡ some (n + length cs)
  unfolding size_loop
  size_loop_lem zero h n cs f l = absurd (omega arith)
  size_loop_lem (suc fuel) h n [] f l = ap some (omega arith)
  size_loop_lem (suc fuel) h n ((a, x) ∷ cs) f l =
      rw (ne→== a 0 (omega arith), l.2)
        (size_loop_lem fuel h (suc n) cs (omega arith) l.4 ∙ ap some (omega arith))

  size_lem :
      (fuel : ℕ) {s : Stack A} (cs : List (ℕ × A))
      → Represents s cs
      → length cs < fuel
      → size fuel s ≡ some (length cs)
  unfolding size
  size_lem fuel {s} cs v f =
      rw v.top_at (size_loop_lem fuel s.heap 0 cs f v.laid ∙ ap some (omega arith))

  -- Every node of the list has been freed.
  abbrev pub Freed : Heap A → List (ℕ × A) → Type ℓ
  Freed h [] = Unit
  Freed h ((a, x) ∷ cs) = (h a ≡ none) × Freed h cs

  -- What the destructor's loop leaves of a heap.
  record Destroyed (h : Heap A) (cs : List (ℕ × A)) (out : Option (Heap A)) : Type ℓ where
    rest : Heap A
    ends : out ≡ some rest
    freed : Freed rest cs
    others : (p : ℕ) → Absent p cs → rest p ≡ h p

  destroy_step :
      (fuel : ℕ) (h : Heap A) (a : ℕ) (x : A) (cs : List (ℕ × A))
      → Laid h ((a, x) ∷ cs)
      → Destroyed (update h a none) cs (destroy_loop fuel (update h a none) (address cs))
      → Destroyed h ((a, x) ∷ cs) (destroy_loop (suc fuel) h a)
  unfolding destroy_loop
  destroy_step fuel h a x cs l ih = record {
    rest = ih.rest;
    ends = rw (ne→== a 0 (omega arith), l.2) ih.ends;
    freed = (ih.others a l.3 ∙ update_self h a none refl, ih.freed);
    others = λ p away. ih.others p away.1 ∙ update_ne h a none away.0;
  }

  destroy_loop_lem :
      (fuel : ℕ) (h : Heap A) (cs : List (ℕ × A))
      → length cs < fuel
      → Laid h cs
      → Destroyed h cs (destroy_loop fuel h (address cs))
  unfolding destroy_loop
  destroy_loop_lem zero h cs f l = absurd (omega arith)
  destroy_loop_lem (suc fuel) h [] f l = record {
    rest = h;
    ends = refl;
    freed = tt;
    others = λ p a. refl;
  }
  destroy_loop_lem (suc fuel) h ((a, x) ∷ cs) f l =
      destroy_step fuel h a x cs l
        (destroy_loop_lem fuel (update h a none) cs (omega arith) (Laid-update h a none cs l.3 l.4))

  destroy_lem :
      (fuel : ℕ) {s : Stack A} (cs : List (ℕ × A))
      → Represents s cs
      → length cs < fuel
      → (h : Heap A) × (destroy fuel s ≡ some h)
        × Freed h cs
        × ((p : ℕ) → Absent p cs → h p ≡ s.heap p)
  unfolding destroy
  destroy_lem fuel {s} cs v f =
      (d.rest, ap (destroy_loop fuel s.heap) v.top_at ∙ d.ends, d.freed, d.others)
    where
      d : Destroyed s.heap cs (destroy_loop fuel s.heap (address cs))
      d = destroy_loop_lem fuel s.heap cs f v.laid

  -- Given one round of fuel more than there are elements, the loops of `size` and of the destructor
  -- end and dereference no dangling pointer: `size` counts the elements, and the destructor frees
  -- every node of the stack and nothing else.
  pub walks_end :
      (fuel : ℕ) {s : Stack A} (cs : List (ℕ × A))
      → Represents s cs
      → length cs < fuel
      → (size fuel s ≡ some (length cs))
        × ((h : Heap A) × (destroy fuel s ≡ some h)
            × Freed h cs
            × ((p : ℕ) → Absent p cs → h p ≡ s.heap p))
  walks_end fuel cs v f = (size_lem fuel cs v f, destroy_lem fuel cs v f)
