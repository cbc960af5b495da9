-- ===== src/Base.antt =====
-- What the components share: names of the libraries, passed on, Boolean tests and lists over the
-- native numbers, byte strings, and the errors that the packages return.
mod Tests
mod Lists
mod Errors
pub mod Bits
pub mod BitAt
pub mod Bytes
pub mod Assoc
unfoldable pub use Tests.*
pub use Lists.*
pub use Errors.*
pub use Prim.Native.Nat.{
  ℕ, zero, suc, ◌+◌, ◌-◌, ◌*◌, ◌/◌, ◌%◌, ◌^◌, ◌≤◌, ◌<◌, bit_and, bit_or, bit_xor,
}
pub use mathlib.Core.Path.{◌≡◌, refl, sym, ap, ◌∙◌}
pub use mathlib.Core.Logic.{◌≢◌, ◌↔◌, ◌⊎◌, inl, inr}
pub use mathlib.Core.Bool.{Bool, true, false, not, ◌&&◌, ◌||◌}
pub use mathlib.Core.Option.{Option, none, some}
pub use mathlib.Core.List.{List, [], ◌∷◌, ◌++◌, map, filter, append-nil, append_assoc}
pub use native.Mathlib.Omega.{arith}
