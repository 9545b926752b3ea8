-- ===== src/Prelude.antt =====
-- The names that the other modules share: the libraries', passed on, and those of the children.
mod Tests
mod Lists
mod Int
mod Strings
mod Maps
pub use Tests.*
pub use Lists.*
pub use Int.*
pub use Prim.Native.Nat.{ℕ, zero, suc, ◌+◌, ◌-◌, ◌*◌, ◌/◌, ◌%◌, ◌^◌, ◌≤◌, ◌<◌, min, max}
pub use mathlib.Core.Path.{◌≡◌, refl, sym, ap, ◌∙◌, subst, fun_ext}
pub use mathlib.Core.Logic.{◌≢◌, ◌↔◌, ◌⊎◌, inl, inr}
pub use mathlib.Core.Bool.{Bool, true, false, not, ◌&&◌, ◌||◌}
pub use mathlib.Core.Option.{Option, none, some}
pub use mathlib.Core.List.{List, [], ◌∷◌, ◌++◌, map}
pub use native.Mathlib.Omega.{arith}
pub use Strings.{Text, codes, text_eq_refl, text_eq-eq, text_eq_iff}
unfoldable pub use Strings.{
  text_eq, has_prefix, decimal, decimal_int, blank, contains, trim_space, cut, lower,
}
pub use Maps.{lookup-insert, lookup-insert_self, lookup-insert_ne, lookup-delete, member}
unfoldable pub use Maps.{lookup, insert, delete}
unfoldable pub use native.Mathlib.Decide.{dec_lt, dec_le, ℕ_discrete}
