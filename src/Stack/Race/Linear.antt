-- ===== src/Stack/Race/Linear.antt =====
-- Each step of the threads on a stack takes effect at one point: a successful compare-exchange pushes
-- or pops the list, and every other step leaves it.
use cpp_lockfree_structures.Prelude.{
  ℕ, ◌+◌, ◌<◌, ◌^◌, ◌≡◌, refl, sym, ap, ◌∙◌, some, List, [], ◌∷◌, update, update_self, arith,
}
use cpp_lockfree_structures.Stack.{get_ptr}
use cpp_lockfree_structures.Stack.Layout.{address, Absent, free-Absent, first_node, nil_of_null}
use cpp_lockfree_structures.Stack.Refine.{tail}
use cpp_lockfree_structures.Stack.Race.Moves.{
  Thread, popping, Shared, Move, push_begin, link_next, push_win, push_lose, pop_begin, pop_empty,
  pop_load, give_up, read_next, dangle, pop_win, pop_lose, return_pop, System,
}
use cpp_lockfree_structures.Stack.Race.Invariant.{owned, ThreadInv, Inv}
use cpp_lockfree_structures.Stack.Race.Frame.{owned_alloc, other_ne, stay, write_own}
use cpp_lockfree_structures.Stack.Race.Commit.{pushed, taken, unchanged}

module _ {ℓ} {A : Type ℓ} where
  -- What a step does to the list.
  abbrev pub Effect :
      {m m' : Shared A} {p p' : Thread A} → Move m p m' p' → List (ℕ × A) → List (ℕ × A) → Type ℓ
  Effect (push_win {x} {a} e) cs cs' = cs' ≡ (a, x) ∷ cs
  Effect (pop_win {old} {n} e h) cs cs' = cs ≡ (get_ptr old, n.item) ∷ cs'
  Effect (pop_empty e) cs cs' = (cs ≡ []) × (cs' ≡ [])
  Effect _ cs cs' = cs' ≡ cs

  -- Fewer than 2^16 updates have been made since the thread read its word.
  abbrev pub Recent : Shared A → Thread A → Type 0
  Recent m (popping old seen next) = m.updates < seen + 2 ^ 16
  Recent m _ = Unit

  -- The list and the state after a step.
  abbrev pub After :
      (s : System A) (cs : List (ℕ × A)) (i : ℕ) {m : Shared A} {q p : Thread A}
      → Move s.shared q m p
      → Type ℓ
  After s cs i {m} {q} {p} mv =
      (cs' : List (ℕ × A)) × Effect mv cs cs'
      × Inv cs' (record { shared = m; thread = update s.thread i p })

  Move-After :
      {s : System A} {cs : List (ℕ × A)} (i : ℕ) {m : Shared A} {q p : Thread A}
      (mv : Move s.shared q m p)
      → Inv cs s
      → s.thread i ≡ q
      → ThreadInv s.shared cs q
      → Recent s.shared q
      → After s cs i mv
  Move-After {s} {cs} i (push_begin x a free pos small) v at here recent = (
    cs,
    refl,
    write_own v i _ a _ away
        (
          pos,
          small,
          away,
          λ e.
              cc (e, update_self s.shared.stack.heap a (some (record { item = x; next = 0 })) refl),
        )
        refl
        (λ j b ne own e.
          owned_alloc s.shared cs (s.thread j) b (v.local j) own (ap s.shared.stack.heap e ∙ free)),
  )
    where
      away : Absent a cs
      away = free-Absent s.shared.stack.heap a cs free v.shape.laid
  Move-After {s} {cs} i (link_next {x} {a} {old} {seen}) v at here recent = (
    cs,
    refl,
    write_own v i _ a _ here.2 (here.0, here.1, here.2, update_self s.shared.stack.heap a _ refl)
        refl (other_ne v i a (ap owned at)),
  )
  Move-After {s} {cs} i (push_win {x} {a} {old} {seen} e) v at here recent =
      ((a, x) ∷ cs, refl, pushed v i x a old seen e (ap owned at) here)
  Move-After {s} {cs} i (push_lose {x} {a}) v at here recent = (
    cs,
    refl,
    stay v i _ (here.0, here.1, here.2, λ e. cc (e, here.3)) (λ b own. ap owned at ∙ own),
  )
  Move-After {cs} i pop_begin v at here recent = (cs, refl, stay v i _ tt (λ a own. cc own))
  Move-After {s} {cs} i (pop_empty e) v at here recent =
      (cs, (nil_of_null cs v.shape e, nil_of_null cs v.shape e), stay v i _ tt (λ a own. cc own))
  Move-After {cs} i (pop_load nz) v at here recent = (
    cs,
    refl,
    stay v i _
        (record { past = omega arith; stamped = v.counted; non_null = nz; current = λ e. refl })
        (λ a own. cc own),
  )
  Move-After {cs} i give_up v at here recent = (cs, refl, stay v i _ tt (λ a own. cc own))
  Move-After {s} {cs} i (read_next {old} {seen} {n} h) v at here recent =
      (cs, refl, stay v i _ (here, next) (λ a own. cc own))
    where
      next : seen ≡ s.shared.updates → n.next ≡ address (tail cs)
      next e =
          let same : old ≡ s.shared.stack.head = here.current e in
          let (cs', shape, nx) =
            first_node n cs v.shape (λ z. here.non_null (ap get_ptr same ∙ z))
              (ap (λ w. s.shared.stack.heap (get_ptr w)) (sym same) ∙ h) in
          nx ∙ ap (λ l. address (tail l)) (sym shape)
  Move-After {cs} i (dangle h) v at here recent = (cs, refl, stay v i _ tt (λ a own. cc own))
  Move-After {s} {cs} i (pop_win {old} {seen} {next} {n} e h) v at here recent =
      (first.0, shape, taken v i old seen next n first.0 e shape nx)
    where
      first :
          (cs' : List (ℕ × A)) × (cs ≡ (get_ptr s.shared.stack.head, n.item) ∷ cs')
          × (n.next ≡ address cs')
      first =
          first_node n cs v.shape (λ z. here.0.non_null (ap get_ptr (sym e) ∙ z))
            (ap (λ w. s.shared.stack.heap (get_ptr w)) e ∙ h)

      shape : cs ≡ (get_ptr old, n.item) ∷ first.0
      shape = first.1 ∙ ap (λ w. (get_ptr w, n.item) ∷ first.0) e

      nx : next ≡ address first.0
      nx = here.1 (unchanged v i old seen here.0 recent e) ∙ ap (λ l. address (tail l)) shape
  Move-After {cs} i (pop_lose ne) v at here recent = (cs, refl, stay v i _ tt (λ a own. cc own))
  Move-After {cs} i return_pop v at here recent = (cs, refl, stay v i _ tt (λ a own. cc own))

  -- Each step of any thread on the stack keeps the nodes a well-formed list and takes effect at one
  -- point: the successful compare-exchange of `push` puts its element on top, that of `pop` removes the
  -- top element and returns it, `pop` finds the stack empty only when the list is, and every
  -- other step leaves the list. The stepping thread's `pop` must have seen fewer than 2^16 updates since it
  -- read the head word.
  pub step_linearizable :
      {s : System A} {cs : List (ℕ × A)} (i : ℕ) {m : Shared A} {p : Thread A}
      (mv : Move s.shared (s.thread i) m p)
      → Inv cs s
      → Recent s.shared (s.thread i)
      → After s cs i mv
  step_linearizable i mv v recent = Move-After i mv v refl (v.local i) recent
