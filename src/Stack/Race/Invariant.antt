-- ===== src/Stack/Race/Invariant.antt =====
-- What holds between the shared access of the threads on a stack: the nodes are laid out as a list,
-- the counter in the head word counts the updates, and each thread's locals are as fresh as its
-- snapshot.
use cpp_lockfree_structures.Prelude.{
  ℕ, suc, ◌%◌, ◌≤◌, ◌<◌, ◌^◌, ◌≡◌, ◌≢◌, refl, sym, ap, ◌∙◌, Option, none, some, List, ◌⊎◌, inl, inr,
  arith,
}
use cpp_lockfree_structures.Stack.{Stack, get_ptr, get_counter}
use cpp_lockfree_structures.Stack.Layout.{address, Absent, Represents}
use cpp_lockfree_structures.Stack.Refine.{tail}
use cpp_lockfree_structures.Stack.Race.Moves.{
  Thread, linking, pushing, peeking, popping, Shared, System, quiet,
}

module _ {ℓ} {A : Type ℓ} where
  -- The address of the node that a thread has not yet pushed.
  abbrev pub owned : Thread A → Option ℕ
  owned (linking x a old seen) = some a
  owned (pushing x a old seen) = some a
  owned _ = none

  -- A word read at `seen`: nothing has been updated since, or the head has moved on.
  pub record Snapshot (m : Shared A) (old seen : ℕ) : Type ℓ where
    pub past : seen ≤ m.updates
    pub stamped : get_counter old ≡ seen % 2 ^ 16
    pub non_null : get_ptr old ≢ 0
    pub current : seen ≡ m.updates → old ≡ m.stack.head

  abbrev pub ThreadInv : Shared A → List (ℕ × A) → Thread A → Type ℓ
  ThreadInv m cs (linking x a old seen) =
      (0 < a) × (a < 2 ^ 48) × Absent a cs × (m.stack.heap a ≢ none)
  ThreadInv m cs (pushing x a old seen) =
      (0 < a)
      × (a < 2 ^ 48)
      × Absent a cs
      × (m.stack.heap a ≡ some (record { item = x; next = get_ptr old }))
  ThreadInv m cs (peeking old seen) = Snapshot m old seen
  ThreadInv m cs (popping old seen next) =
      Snapshot m old seen × (seen ≡ m.updates → next ≡ address (tail cs))
  ThreadInv m cs _ = Unit

  pub record Inv (cs : List (ℕ × A)) (s : System A) : Type ℓ where
    pub counted : get_counter s.shared.stack.head ≡ s.shared.updates % 2 ^ 16
    pub shape : Represents s.shared.stack cs
    pub local : (i : ℕ) → ThreadInv s.shared cs (s.thread i)
    pub apart : (i j a : ℕ) → owned (s.thread i) ≡ some a → owned (s.thread j) ≡ some a → i ≡ j

  -- What a step of one thread does to the words that the others have read.
  abbrev pub Moved : Shared A → List (ℕ × A) → Shared A → List (ℕ × A) → Type ℓ
  Moved m cs m' cs' =
      ((m'.updates ≡ m.updates) × (m'.stack.head ≡ m.stack.head) × (cs' ≡ cs))
      ⊎ (m'.updates ≡ suc m.updates)

  Snapshot-Moved :
      (m m' : Shared A) (cs cs' : List (ℕ × A)) (old seen : ℕ)
      → Moved m cs m' cs'
      → Snapshot m old seen
      → Snapshot m' old seen
  Snapshot-Moved m m' cs cs' old seen (inl same) v = record {
    past = omega (arith, v.past);
    stamped = v.stamped;
    non_null = v.non_null;
    current = λ e. v.current (e ∙ same.0) ∙ sym same.1;
  }
  Snapshot-Moved m m' cs cs' old seen (inr more) v = record {
    past = omega (arith, v.past);
    stamped = v.stamped;
    non_null = v.non_null;
    current = λ e. absurd (omega (arith, v.past));
  }

  Next-Moved :
      (m m' : Shared A) (cs cs' : List (ℕ × A)) (old seen next : ℕ)
      → Moved m cs m' cs'
      → Snapshot m old seen
      → (seen ≡ m.updates → next ≡ address (tail cs))
      → seen ≡ m'.updates
      → next ≡ address (tail cs')
  Next-Moved m m' cs cs' old seen next (inl same) v h e =
      h (e ∙ same.0) ∙ ap (λ l. address (tail l)) (sym same.2)
  Next-Moved m m' cs cs' old seen next (inr more) v h e = absurd (omega (arith, v.past))

  -- A step that leaves a thread's own node alone leaves its invariant.
  pub ThreadInv-Moved :
      (m m' : Shared A) (cs cs' : List (ℕ × A)) (q : Thread A)
      → Moved m cs m' cs'
      → ((a : ℕ)
          → owned q ≡ some a
          → Absent a cs
          → (m'.stack.heap a ≡ m.stack.heap a) × Absent a cs')
      → ThreadInv m cs q
      → ThreadInv m' cs' q
  ThreadInv-Moved m m' cs cs' (linking x a old seen) mv keep v =
      let k = keep a refl v.2 in (v.0, v.1, k.1, λ e. v.3 (sym k.0 ∙ e))
  ThreadInv-Moved m m' cs cs' (pushing x a old seen) mv keep v =
      let k = keep a refl v.2 in (v.0, v.1, k.1, k.0 ∙ v.3)
  ThreadInv-Moved m m' cs cs' (peeking old seen) mv keep v =
      Snapshot-Moved m m' cs cs' old seen mv v
  ThreadInv-Moved m m' cs cs' (popping old seen next) mv keep v =
      (Snapshot-Moved m m' cs cs' old seen mv v.0, Next-Moved m m' cs cs' old seen next mv v.0 v.1)
  ThreadInv-Moved m m' cs cs' _ mv keep v = tt

  pub quiet-Inv :
      (st : Stack A) (cs : List (ℕ × A))
      → Represents st cs
      → get_counter st.head ≡ 0
      → Inv cs (quiet st)
  quiet-Inv st cs v z = record { counted = z; shape = v; local = λ i. tt; apart = λ i j a e f. cc }
