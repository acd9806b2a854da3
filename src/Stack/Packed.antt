-- ===== src/Stack/Packed.antt =====
-- The packed head word of atomic_stack.hpp.
use cpp_lockfree_structures.Prelude.{ℕ, ◌+◌, ◌%◌, ◌^◌, ◌<◌, ◌≡◌, arith}
use cpp_lockfree_structures.Stack.{pack, get_ptr, get_counter}

-- Packing and unpacking are inverse: a pointer below 2^48 and a counter come back, the counter modulo
-- 2^16, and a word is the pack of its parts.
pub pack_roundtrip :
    (p c v : ℕ)
    → p < 2 ^ 48
    → v < 2 ^ 64
    → (get_ptr (pack p c) ≡ p)
      × (get_counter (pack p c) ≡ c % 2 ^ 16)
      × (pack (get_ptr v) (get_counter v) ≡ v)
unfolding pack get_ptr get_counter
pack_roundtrip p c v h k = omega arith

pub get_ptr-pack : (p c : ℕ) → p < 2 ^ 48 → get_ptr (pack p c) ≡ p
unfolding pack get_ptr
get_ptr-pack p c h = omega arith

pub get_counter-pack : (p c : ℕ) → get_counter (pack p c) ≡ c % 2 ^ 16
unfolding pack get_counter
get_counter-pack p c = omega arith

pub get_ptr-lt : (v : ℕ) → get_ptr v < 2 ^ 48
unfolding get_ptr
get_ptr-lt v = omega arith

-- After 2^16 updates that bring the same node back to the top the word is the same: the counter does
-- not tell them apart.
pub pack_wraps : (p c : ℕ) → pack p (c + 2 ^ 16) ≡ pack p c
unfolding pack
pack_wraps p c = omega arith
