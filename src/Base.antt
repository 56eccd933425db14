-- ===== src/Base.antt =====
-- The names that every module of the library shares: the libraries' own, passed on, Boolean tests
-- on the native numbers, C arrays, bytes of memory, and the binary digits of a number.
mod Tests
mod Arrays
pub mod Digits
pub mod Flags
pub mod Bytes
pub use Tests.*
pub use Arrays.*
pub use Prim.Native.Nat.{
  ℕ, zero, suc, ◌+◌, ◌-◌, ◌*◌, ◌/◌, ◌%◌, ◌^◌, ◌≤◌, ◌<◌, min, max, bit_and, bit_or, bit_xor,
}
pub use mathlib.Core.Path.{◌≡◌, refl, sym, ap, ap₂, ◌∙◌, subst, fun_ext, ◌≡⟨◌⟩◌, ◌∎}
pub use mathlib.Core.Logic.{◌≢◌, ◌↔◌, ◌⊎◌, inl, inr}
pub use mathlib.Core.Bool.{Bool, true, false, not, ◌&&◌, ◌||◌}
pub use mathlib.Core.Option.{Option, none, some}
pub use mathlib.Core.List.{List, [], ◌∷◌, ◌++◌, append_assoc, append-nil}
pub use native.Mathlib.Omega.{arith}

pub ltb-true : {m n : ℕ} → m < n → ltb m n ≡ true
ltb-true h = ground arith

pub ltb-false : {m n : ℕ} → n ≤ m → ltb m n ≡ false
ltb-false h = ground arith
