-- ===== src/Prelude.antt =====
-- The names that the other modules share: the libraries', passed on, with the Boolean tests,
-- the lists over the native numbers, and the memory that the structures are laid out in.
mod Tests
mod Lists
mod Memory
mod Words
mod Bits
mod Digits
pub use Tests.*
pub use Lists.*
pub use Memory.*
pub use Words.*
pub use Digits.{digit, digit-zero, digit-le, digit-bit_or, bit_and-power, xor-mod, or_one, or_power}
pub use Bits.{bit_and-mask, pow-pos}
pub use Prim.Native.Nat.{ℕ, zero, suc, ◌+◌, ◌-◌, ◌*◌, ◌/◌, ◌%◌, ◌^◌, ◌≤◌, ◌<◌, min, bit_and}
pub use mathlib.Core.Path.{◌≡◌, refl, sym, ap, ap₂, ◌∙◌, subst}
pub use mathlib.Core.Logic.{◌≢◌, ◌↔◌, ◌⊎◌, inl, inr}
pub use mathlib.Core.Bool.{Bool, true, false, ◌&&◌, ◌||◌, not}
pub use mathlib.Core.Option.{Option, none, some}
pub use mathlib.Core.List.{List, [], ◌∷◌, ◌++◌, map, append-nil, append_assoc}
pub use native.Mathlib.Omega.{arith}
