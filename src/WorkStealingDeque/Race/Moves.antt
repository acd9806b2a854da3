-- ===== src/WorkStealingDeque/Race/Moves.antt =====
-- One shared access of the owner (`push_bottom`, `pop_bottom`) or of a thief (`steal`). The
-- compare-exchanges that raise `top_` write `suc t`: `t` was less than a 64-bit `bottom_`, so
-- `t + 1` does not wrap.
use cpp_lockfree_structures.Prelude.{
  ℕ, suc, ◌-◌, ◌≤◌, ◌<◌, ◌≡◌, ◌≢◌, Option, none, some, add64, sub64, update,
}
use cpp_lockfree_structures.WorkStealingDeque.{Deque, slot_index, slot_count}

-- Where the owner stands, with its live locals: `b` is its copy of `bottom_` (already lowered in
-- `pop_bottom`), `t` of `top_`, `out` the pointer that it holds.
pub data Owner {ℓ} (A : Type ℓ) : Type ℓ where
  idle : Owner A
  pushing : (x : A) (b : ℕ) → Owner A
  storing : (x : A) (b : ℕ) → Owner A
  bumping : (b : ℕ) → Owner A
  lowering : (b : ℕ) → Owner A
  lowered : (b : ℕ) → Owner A
  taking : (b t : ℕ) → Owner A
  deciding : (b t : ℕ) (out : Option A) → Owner A
  restoring : (b : ℕ) (out : Option A) → Owner A
  popped : (out : Option A) → Owner A

pub data Thief {ℓ} (A : Type ℓ) : Type ℓ where
  resting : Thief A
  at_top : (t : ℕ) → Thief A
  ready : (t : ℕ) → Thief A
  saw : (t : ℕ) → Thief A
  won : (t : ℕ) → Thief A
  stole : (out : Option A) → Thief A

module _ {ℓ} {A : Type ℓ} where
  pub data OwnerMove (d : Deque A) : Owner A → Deque A → Owner A → Type ℓ where
    load_bottom : (x : A) → OwnerMove d idle d (pushing x d.bottom)
    find_full : {x : A} {b : ℕ} → slot_count - 1 ≤ sub64 b d.top → OwnerMove d (pushing x b) d idle
    find_room :
        {x : A} {b : ℕ} → sub64 b d.top < slot_count - 1 → OwnerMove d (pushing x b) d (storing x b)
    store_slot :
        {x : A} {b : ℕ}
        → OwnerMove d
            (storing x b)
            (record d { buffer = update d.buffer (slot_index b) (some x) })
            (bumping b)
    store_bottom : {b : ℕ} → OwnerMove d (bumping b) (record d { bottom = add64 b 1 }) idle
    pop_nothing : d.bottom ≡ 0 → OwnerMove d idle d (popped none)
    pop_load : {b : ℕ} → d.bottom ≡ suc b → OwnerMove d idle d (lowering b)
    lower : {b : ℕ} → OwnerMove d (lowering b) (record d { bottom = b }) (lowered b)
    find_some : {b : ℕ} → d.top ≤ b → OwnerMove d (lowered b) d (taking b d.top)
    find_none : {b : ℕ} → b < d.top → OwnerMove d (lowered b) d (restoring b none)
    exchange :
        {b t : ℕ}
        → OwnerMove d
            (taking b t)
            (record d { buffer = update d.buffer (slot_index b) none })
            (deciding b t (d.buffer (slot_index b)))
    keep : {b t : ℕ} {out : Option A} → t ≢ b → OwnerMove d (deciding b t out) d (popped out)
    win :
        {b t : ℕ} {out : Option A}
        → t ≡ b
        → d.top ≡ t
        → OwnerMove d (deciding b t out) (record d { top = suc t }) (restoring b out)
    lose :
        {b t : ℕ} {out : Option A}
        → t ≡ b
        → d.top ≢ t
        → OwnerMove d (deciding b t out) d (restoring b none)
    restore :
        {b : ℕ} {out : Option A}
        → OwnerMove d (restoring b out) (record d { bottom = add64 b 1 }) (popped out)
    return_pop : {out : Option A} → OwnerMove d (popped out) d idle

  pub data ThiefMove (d : Deque A) : Thief A → Deque A → Thief A → Type ℓ where
    load_top : ThiefMove d resting d (at_top d.top)
    see_empty : {t : ℕ} → d.bottom ≤ t → ThiefMove d (at_top t) d (stole none)
    see_some : {t : ℕ} → t < d.bottom → ThiefMove d (at_top t) d (ready t)
    see_null : {t : ℕ} → d.buffer (slot_index t) ≡ none → ThiefMove d (ready t) d (stole none)
    see_item : {t : ℕ} {x : A} → d.buffer (slot_index t) ≡ some x → ThiefMove d (ready t) d (saw t)
    claim : {t : ℕ} → d.top ≡ t → ThiefMove d (saw t) (record d { top = suc t }) (won t)
    miss : {t : ℕ} → d.top ≢ t → ThiefMove d (saw t) d (stole none)
    take :
        {t : ℕ}
        → ThiefMove d
            (won t)
            (record d { buffer = update d.buffer (slot_index t) none })
            (stole (d.buffer (slot_index t)))
    return_steal : {out : Option A} → ThiefMove d (stole out) d resting

-- The deque with its owner and its thieves.
pub record System {ℓ} (A : Type ℓ) : Type ℓ where
  pub deque : Deque A
  pub owner : Owner A
  pub thief : ℕ → Thief A

module _ {ℓ} {A : Type ℓ} where
  -- Any thread may take the next step.
  pub data Step (s : System A) : System A → Type ℓ where
    own :
        {d : Deque A} {o : Owner A}
        → OwnerMove s.deque s.owner d o
        → Step s (record { deque = d; owner = o; thief = s.thief })
    rob :
        (i : ℕ) {d : Deque A} {p : Thief A}
        → ThiefMove s.deque (s.thief i) d p
        → Step s (record { deque = d; owner = s.owner; thief = update s.thief i p })

  pub data Reach (s : System A) : System A → Type ℓ where
    start : Reach s s
    later : {t u : System A} → Reach s t → Step t u → Reach s u

  -- A deque that nobody works on.
  abbrev pub quiet : Deque A → System A
  quiet d = record { deque = d; owner = idle; thief = λ i. resting }
