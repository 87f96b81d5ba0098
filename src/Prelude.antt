-- ===== src/Prelude.antt =====
-- Names that every component shares: those of the libraries, passed on, with the Boolean tests,
-- the arrays and the digits of keys that the index structures have in common.
mod Tests
mod Arrays
mod Ranges
mod Runs
pub use Tests.*
unfoldable pub use Arrays.*
unfoldable pub use Ranges.*
pub use Runs.*
pub use Prim.Native.Nat.{
  ℕ, zero, suc, ◌+◌, ◌-◌, ◌*◌, ◌/◌, ◌%◌, ◌^◌, ◌≤◌, ◌<◌, min, max, bit_and, bit_or, bit_xor,
}
pub use mathlib.Core.Path.{◌≡◌, refl, sym, ap, ◌∙◌, subst}
pub use mathlib.Core.Logic.{◌≢◌, ◌↔◌, ◌⊎◌, inl, inr}
pub use mathlib.Core.Bool.{Bool, true, false, not, ◌&&◌, ◌||◌}
pub use mathlib.Core.Option.{Option, none, some}
pub use mathlib.Core.List.{List, [], ◌∷◌, ◌++◌, map}
pub use native.Mathlib.Omega.{arith}
