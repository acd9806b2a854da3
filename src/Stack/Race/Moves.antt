-- ===== src/Stack/Race/Moves.antt =====
-- One shared access of `push` or `pop`. The `seen` of a thread and the `updates` of the system are not
-- in the program: they count the successful compare-exchanges on `head_`, now and when the thread
-- read its word, and no step depends on them.
use cpp_lockfree_structures.Prelude.{ℕ, suc, ◌<◌, ◌^◌, ◌≡◌, ◌≢◌, Option, none, some, update}
use cpp_lockfree_structures.Stack.{Node, Stack, get_ptr, bump}

-- Where a thread stands, with its live locals: the word `old` that it read from `head_`, its own node
-- `a` with the element `x`, and the successor `next` that it read.
pub data Thread {ℓ} (A : Type ℓ) : Type ℓ where
  idle : Thread A
  linking : (x : A) (a old seen : ℕ) → Thread A
  pushing : (x : A) (a old seen : ℕ) → Thread A
  attempting : Thread A
  peeking : (old seen : ℕ) → Thread A
  popping : (old seen next : ℕ) → Thread A
  returning : (out : Option A) → Thread A
  crashed : Thread A

pub record Shared {ℓ} (A : Type ℓ) : Type ℓ where
  pub stack : Stack A
  pub updates : ℕ

module _ {ℓ} {A : Type ℓ} where
  abbrev pub write : Shared A → ℕ → Option (Node A) → Shared A
  write m a c = record m { stack = record { head = m.stack.head; heap = update m.stack.heap a c } }

  -- A successful compare-exchange on `head_`.
  abbrev pub swing : Shared A → ℕ → Shared A
  swing m word = record {
    stack = record { head = word; heap = m.stack.heap };
    updates = suc m.updates;
  }

  pub data Move (m : Shared A) : Thread A → Shared A → Thread A → Type ℓ where
    push_begin :
        (x : A) (a : ℕ)
        → m.stack.heap a ≡ none
        → 0 < a
        → a < 2 ^ 48
        → Move m idle
            (write m a (some (record { item = x; next = 0 })))
            (linking x a m.stack.head m.updates)
    link_next :
        {x : A} {a old seen : ℕ}
        → Move m
            (linking x a old seen)
            (write m a (some (record { item = x; next = get_ptr old })))
            (pushing x a old seen)
    push_win :
        {x : A} {a old seen : ℕ}
        → m.stack.head ≡ old
        → Move m (pushing x a old seen) (swing m (bump old a)) idle
    push_lose :
        {x : A} {a old seen : ℕ}
        → Move m (pushing x a old seen) m (linking x a m.stack.head m.updates)
    pop_begin : Move m idle m attempting
    pop_empty : get_ptr m.stack.head ≡ 0 → Move m attempting m (returning none)
    pop_load : get_ptr m.stack.head ≢ 0 → Move m attempting m (peeking m.stack.head m.updates)
    give_up : Move m attempting m (returning none)
    read_next :
        {old seen : ℕ} {n : Node A}
        → m.stack.heap (get_ptr old) ≡ some n
        → Move m (peeking old seen) m (popping old seen n.next)
    dangle :
        {old seen : ℕ} → m.stack.heap (get_ptr old) ≡ none → Move m (peeking old seen) m crashed
    pop_win :
        {old seen next : ℕ} {n : Node A}
        → m.stack.head ≡ old
        → m.stack.heap (get_ptr old) ≡ some n
        → Move m
            (popping old seen next)
            (write (swing m (bump old next)) (get_ptr old) none)
            (returning (some n.item))
    pop_lose :
        {old seen next : ℕ} → m.stack.head ≢ old → Move m (popping old seen next) m attempting
    return_pop : {out : Option A} → Move m (returning out) m idle

pub record System {ℓ} (A : Type ℓ) : Type ℓ where
  pub shared : Shared A
  pub thread : ℕ → Thread A

module _ {ℓ} {A : Type ℓ} where
  pub data Step (s : System A) : System A → Type ℓ where
    pick :
        (i : ℕ) {m : Shared A} {p : Thread A}
        → Move s.shared (s.thread i) m p
        → Step s (record { shared = m; thread = update s.thread i p })

  pub data Reach (s : System A) : System A → Type ℓ where
    start : Reach s s
    later : {t u : System A} → Reach s t → Step t u → Reach s u

  -- A stack that nobody works on.
  abbrev pub quiet : Stack A → System A
  quiet st = record { shared = record { stack = st; updates = 0 }; thread = λ i. idle }
