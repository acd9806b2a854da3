-- ===== src/Stack/Refine.antt =====
-- `push`, `pop`, `top` and `empty` of atomic_stack.hpp against a list, newest element first.
use cpp_lockfree_structures.Prelude.{
  ℕ, ◌+◌, ◌%◌, ◌^◌, ◌<◌, ◌≡◌, ◌≢◌, refl, ap, Bool, true, false, Option, none, some, List, [], ◌∷◌,
  head?, update, update_self, ◌∙◌, arith, eq→==, ne→==, ==→eq,
}
use cpp_lockfree_structures.Stack.{
  Node, Stack, pack, get_ptr, get_counter, bump, link, push_loop, push, pop, empty, top,
}
use cpp_lockfree_structures.Stack.Packed.{get_ptr-pack}
use cpp_lockfree_structures.Stack.Layout.{
  address, items, Absent, Laid-update, address-lt, free-Absent, Represents,
}

module _ {ℓ} {A : Type ℓ} where
  -- A node with the right successor, under a head word that points at it, is a new top.
  pub Represents-cons :
      {s : Stack A} (x : A) (a old : ℕ) (cs : List (ℕ × A))
      → 0 < a
      → a < 2 ^ 48
      → Absent a cs
      → Represents s cs
      → Represents (record (link x a s) { head = bump old a }) ((a, x) ∷ cs)
  unfolding link
  Represents-cons {s} x a old cs pos small away v = record {
    top_at = get_ptr-pack a (get_counter old + 1) small;
    laid = (
      pos,
      small,
      update_self s.heap a (some node) refl
          ∙ ap (λ p. some (record { item = x; next = p })) v.top_at,
      away,
      Laid-update s.heap a (some node) cs away v.laid,
    );
  }
    where
      node : Node A
      node = record { item = x; next = get_ptr s.head }

  pub Represents-update :
      {s : Stack A} (a : ℕ) (c : Option (Node A)) {cs : List (ℕ × A)}
      → Absent a cs
      → Represents s cs
      → Represents (record s { heap = update s.heap a c }) cs
  Represents-update {s} a c {cs} away v = record {
    top_at = v.top_at;
    laid = Laid-update s.heap a c cs away v.laid;
  }

  push_loop-Represents :
      (weak : List Bool) {s : Stack A} (x : A) (a : ℕ) (cs : List (ℕ × A))
      → 0 < a
      → a < 2 ^ 48
      → Absent a cs
      → Represents s cs
      → Represents (push_loop weak x a s) ((a, x) ∷ cs)
  unfolding push_loop link
  push_loop-Represents [] {s} x a cs pos small away v =
      Represents-cons x a s.head cs pos small away v
  push_loop-Represents (true ∷ weak) x a cs pos small away v =
      push_loop-Represents weak x a cs pos small away (Represents-update a _ away v)
  push_loop-Represents (false ∷ weak) {s} x a cs pos small away v =
      Represents-cons x a s.head cs pos small away v

  -- On a stack that represents a list, `push` puts the element on top, however many compare-
  -- exchanges fail before one succeeds; `new` returned an address that is free, not null and
  -- below 2^48.
  pub push_on_top :
      (weak : List Bool) {s : Stack A} (x : A) (a : ℕ) (cs : List (ℕ × A))
      → Represents s cs
      → s.heap a ≡ none
      → 0 < a
      → a < 2 ^ 48
      → Represents (push weak x a s) ((a, x) ∷ cs)
  unfolding push
  push_on_top weak {s} x a cs v free pos small =
      push_loop-Represents weak x a cs pos small away (Represents-update a _ away v)
    where
      away : Absent a cs
      away = free-Absent s.heap a cs free v.laid

  -- What `pop` leaves when the top node is at `a` with `p` behind it.
  abbrev pub popped : Stack A → ℕ → ℕ → Stack A
  popped s a p = record { head = bump s.head p; heap = update s.heap a none }

  pop_cons :
      {s : Stack A} (x : A) (a : ℕ) (cs : List (ℕ × A))
      → Represents s ((a, x) ∷ cs)
      → pop s ≡ some (some x, popped s a (address cs))
  unfolding pop
  pop_cons {s} x a cs v =
      rw (v.top_at, ne→== a 0 (omega arith), v.laid.2)
        (ap (λ p. some (some x, popped s p (address cs))) v.top_at)

  pop_nil : {s : Stack A} → Represents s [] → pop s ≡ some (none, s)
  unfolding pop
  pop_nil {s} v = rw (eq→== (get_ptr s.head) 0 v.top_at)

  popped-Represents :
      {s : Stack A} (x : A) (a : ℕ) (cs : List (ℕ × A))
      → Represents s ((a, x) ∷ cs)
      → Represents (popped s a (address cs)) cs
  popped-Represents {s} x a cs v = record {
    top_at = get_ptr-pack (address cs) (get_counter s.head + 1) (address-lt s.heap cs v.laid.4);
    laid = Laid-update s.heap a none cs v.laid.3 v.laid.4;
  }

  abbrev pub tail : List (ℕ × A) → List (ℕ × A)
  tail [] = []
  tail (c ∷ cs) = cs

  -- On a stack that represents a list, `pop` dereferences no dangling pointer, returns the top
  -- element, if there is one, and leaves the rest.
  pub pop_from_top :
      {s : Stack A} (cs : List (ℕ × A))
      → Represents s cs
      → (s' : Stack A) × (pop s ≡ some (head? (items cs), s')) × Represents s' (tail cs)
  pop_from_top {s} [] v = (s, pop_nil v, v)
  pop_from_top {s} ((a, x) ∷ cs) v =
      (popped s a (address cs), pop_cons x a cs v, popped-Represents x a cs v)

  -- `top` dereferences no dangling pointer and returns the top element, if there is one.
  pub top_refines :
      {s : Stack A} (cs : List (ℕ × A)) → Represents s cs → top s ≡ some (head? (items cs))
  unfolding top
  top_refines {s} [] v = rw (eq→== (get_ptr s.head) 0 v.top_at)
  top_refines {s} ((a, x) ∷ cs) v = rw (v.top_at, ne→== a 0 (omega arith), v.laid.2)

  -- `empty` compares the whole head word with 0. It never calls a stack empty that holds an element.
  pub empty_sound : {s : Stack A} (cs : List (ℕ × A)) → Represents s cs → empty s ≡ true → cs ≡ []
  unfolding empty get_ptr
  empty_sound [] v e = refl
  empty_sound {s} ((a, x) ∷ cs) v e = absurd (omega (arith, v.top_at, v.laid.0, ==→eq s.head 0 e))

  -- When `pop` takes the only element of a stack, the counter stays in the head word, so
  -- `empty` answers false on the stack that is left, which has no nodes; unless the counter
  -- comes round to 0.
  pub empty_after_pop :
      {s : Stack A} (x : A) (a : ℕ)
      → Represents s ((a, x) ∷ [])
      → (get_counter s.head + 1) % 2 ^ 16 ≢ 0
      → (s' : Stack A) × (pop s ≡ some (some x, s')) × Represents s' [] × (empty s' ≡ false)
  unfolding empty pack
  empty_after_pop {s} x a v count =
      (popped s a 0, pop_cons x a [] v, popped-Represents x a [] v, ne→== _ 0 (omega arith))

  -- On a stack whose heap holds a list of nodes: `push`, of a node at a free address that fits in 48
  -- bits, puts the element on top however many compare-exchanges fail; `pop` returns the top
  -- element, or reports that there is none, and leaves the rest, without a dangling dereference.
  pub stack_refined :
      (weak : List Bool) {s : Stack A} (x : A) (a : ℕ) (cs : List (ℕ × A))
      → Represents s cs
      → s.heap a ≡ none
      → 0 < a
      → a < 2 ^ 48
      → Represents (push weak x a s) ((a, x) ∷ cs)
        × ((s' : Stack A) × (pop s ≡ some (head? (items cs), s')) × Represents s' (tail cs))
  stack_refined weak x a cs v free pos small =
      (push_on_top weak x a cs v free pos small, pop_from_top cs v)
