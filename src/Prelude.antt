-- ===== src/Prelude.antt =====
-- Names that every module shares: the libraries', passed on, and those of the children: tests,
-- lists, maps with text keys, and values or errors.
mod Tests
mod Lists
mod Maps
mod Text
pub use Tests.*
pub use Lists.*
pub use Maps.*
pub use Text.*
unfoldable pub use Maps.{lookup, insert, delete}
unfoldable pub use Text.{digit, digits, format_nat, itoa}
pub use Prim.Native.Nat.{ℕ, zero, suc, ◌+◌, ◌-◌, ◌*◌, ◌/◌, ◌%◌, ◌^◌, ◌≤◌, ◌<◌}
pub use Prim.Native.String.{String}
pub use mathlib.Core.Path.{◌≡◌, refl, sym, ap, ◌∙◌, subst}
pub use mathlib.Core.Logic.{◌≢◌, ◌↔◌, ◌⊎◌, inl, inr}
pub use mathlib.Core.Bool.{Bool, true, false, not, ◌&&◌, ◌||◌}
pub use mathlib.Core.Option.{Option, none, some}
pub use mathlib.Core.List.{List, [], ◌∷◌, ◌++◌, map}
pub use native.Mathlib.Omega.{arith}
pub use text.Mathlib.Text.{◌==◌}
pub use text.Mathlib.TextEquality.{eq_iff}
pub use text.Mathlib.TextPositions.{eq_refl}
