-- ===== src/Base.antt =====
-- The names that the other modules share: the libraries', passed on, and those of the children.
mod Tests
mod Lists
mod Int
mod Texts
mod Maps
mod Results
mod Strings
mod Decimal
pub use Tests.*
pub use Lists.*
pub use Int.*
pub use Results.*
unfoldable pub use Texts.{text_eq}
unfoldable pub use Decimal.{show_nat, show_int, digits}
pub use Decimal.{value, value-show_nat}
unfoldable pub use Strings.{drop_spaces, trim_space}
pub use Strings.{
  drop, reverse, is_ascii_space, is_space_2, is_space_3, space_width, space_width_rev, cut, split,
  strip_prefix, to_lower, equal_fold, trim_space-trimmed, All-reverse,
}
pub use Texts.{Text, codes, text_eq_iff, text_eq_refl}
unfoldable pub use Maps.{lookup, insert, delete, keep}
pub use Maps.{
  Map, lookup-insert, lookup-delete, keep_value, Distinct, insert-Distinct, keep-Distinct,
  lookup-keep,
}
pub use Prim.Native.Nat.{
  ℕ, zero, suc, ◌+◌, ◌-◌, ◌*◌, ◌/◌, ◌%◌, ◌^◌, ◌≤◌, ◌<◌, min, max, compare, Ordering,
}
pub use mathlib.Core.Path.{◌≡◌, refl, sym, ap, ◌∙◌, subst}
pub use mathlib.Core.Logic.{◌≢◌, ◌↔◌, ◌⊎◌, inl, inr}
pub use mathlib.Core.Bool.{Bool, true, false, not, ◌&&◌, ◌||◌}
pub use mathlib.Core.Option.{Option, none, some}
pub use mathlib.Core.List.{List, [], ◌∷◌, ◌++◌, map}
pub use native.Mathlib.Omega.{arith}
