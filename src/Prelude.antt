-- ===== src/Prelude.antt =====
-- The names that the modules share: the libraries', passed on, and those of the children.
mod Tests
mod Lists
mod Maps
pub mod Int
pub mod Sums
pub mod Bytes
pub mod Assoc
mod Calls
pub use Tests.*
pub use Lists.*
pub use Calls.*
pub use Maps.{
  Map, update, insert, insert_new, erase_key, is_some, present, empty, elem, set_insert, set_erase,
  count-append, count-snoc, TakesOut, take_out-TakesOut, present-le-one,
}
unfoldable pub use Maps.{count, take_out}
pub use Prim.Native.Nat.{ℕ, zero, suc, ◌+◌, ◌-◌, ◌*◌, ◌/◌, ◌%◌, ◌^◌, ◌≤◌, ◌<◌}
pub use mathlib.Core.Path.{◌≡◌, refl, sym, ap, ◌∙◌, subst}
pub use mathlib.Core.Logic.{◌≢◌, ◌↔◌, ◌⊎◌, inl, inr}
pub use mathlib.Core.Bool.{Bool, true, false, not, ◌&&◌, ◌||◌}
pub use mathlib.Core.Option.{Option, none, some}
pub use mathlib.Core.List.{List, [], ◌∷◌, ◌++◌, map}
pub use native.Mathlib.Omega.{arith}
