-- ===== src/Base.antt =====
-- The names that every module shares: the libraries' and those of the children, passed on.
pub mod Tests
pub mod Errors
pub mod Order
pub mod Table
pub mod Json
pub mod Text
pub mod Split
pub mod Host
pub use Tests.{
  ltb, leb, eqb, if◌then◌else◌, Bool-cases, Option-cases, ltb→lt, leb→le, str_lt, is_some,
  opt_str_eq,
}
pub use Order.{str_lt_trans, str_lt_asym}
pub use Errors.{
  Result-cases, >>=-ok, guard-ok, require-ok, is_ok, Error, validation, concurrency, delivery,
  not_found, auth_required, authentication, authorization, rate_limit, integrity, crash, Result, ok,
  err, ◌>>=◌, ◌>>◌, guard, require,
}
unfoldable pub use Table.{
  update_where, find, exists, remove_where, count_where, select, length, All, Some,
}
pub use Table.Laws.{
  found-exists, exists-map, remove_where_none, changed, map-update_where, map-remove_where,
  find-update_where, find_holds, find-exists, find-none-exists, find-append, exists-append,
  exists-update_where, exists-update_where_of, count-append, count-update_where-le, exists-count,
  All-append, All-find, All-map, All-update_where, All-remove_where,
}
pub use Table.Keys.{
  exists-Some, All-removed, find-none, All-select, All-parts, found_unique, exists-update_where-All,
  count_narrow, count-update_where-le-All, exists-find, find_unique, exists_unique, All-always,
}
pub use Prim.Native.Nat.{ℕ, zero, suc, ◌+◌, ◌-◌, ◌*◌, ◌/◌, ◌%◌, ◌^◌, ◌≤◌, ◌<◌}
pub use Prim.Native.String.{String}
pub use mathlib.Core.Path.{◌≡◌, refl, sym, ap, ◌∙◌}
pub use mathlib.Core.Logic.{◌≢◌, ◌↔◌, ◌⊎◌, inl, inr}
pub use mathlib.Core.Bool.{Bool, true, false, not, ◌&&◌, ◌||◌}
pub use mathlib.Core.Option.{Option, none, some}
pub use mathlib.Core.List.{List, [], ◌∷◌, ◌++◌, map}
pub use native.Mathlib.Omega.{arith}
pub use text.Mathlib.Text.{◌==◌}
pub use text.Mathlib.TextEquality.{eq_iff}
pub use text.Mathlib.TextPositions.{eq_refl}
