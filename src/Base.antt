-- ===== src/Base.antt =====
-- Shared names of the development: the libraries' names passed on, Boolean tests, lists measured
-- by native numbers, results of fallible code, bits and fixed-width words.
mod Tests
mod Lists
mod Results
mod Members
pub mod Bits
pub mod Words
pub mod Ints
pub use Tests.*
pub use Lists.*
pub use Results.*
unfoldable pub use Members.{member}
pub use Members.{NoRepeats, member-middle, NoRepeats-middle}
pub use Prim.Native.Nat.{
  ℕ, zero, suc, ◌+◌, ◌-◌, ◌*◌, ◌/◌, ◌%◌, ◌^◌, ◌≤◌, ◌<◌, min, max, bit_and, bit_or,
}
pub use mathlib.Core.Path.{◌≡◌, refl, sym, ap, subst, ◌∙◌}
pub use mathlib.Core.Logic.{◌≢◌, ◌↔◌, ◌⊎◌, inl, inr}
pub use mathlib.Core.Bool.{Bool, true, false, not, ◌&&◌, ◌||◌}
pub use mathlib.Core.Option.{Option, none, some}
pub use mathlib.Core.List.{List, [], ◌∷◌, ◌++◌, map, append-nil, append_assoc}
pub use native.Mathlib.Omega.{arith}
