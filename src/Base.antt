-- ===== src/Base.antt =====
-- The names that the other modules share: the libraries', passed on, and those of the children.
pub mod Tests
pub mod Lists
pub mod Int
pub mod Text
pub mod Maps
pub mod Concat
pub mod Errors
pub mod Sorting
pub use Tests.*
pub use Int.*
unfoldable pub use Lists.{find_first, update_first, filter_by}
pub use Lists.{
  length, any, All, IsIn, All-map, All-IsIn, length-append, find_first-holds, length-update_first,
  find_first-update_first, find_first-append, find_first-append_some, map-update_first,
}
unfoldable pub use Text.{
  to_lower, to_upper, trim_space, split_on, fields_func, contains, one_of, join, concat, equal_fold,
  utf8, trim_prefix, first_chars,
}
pub use Text.{is_empty, Lacks, split_on-Lacks, split_on-append, trim_space-empty, trim_prefix-empty}
pub use Concat.{concat-head, concat-tail}
unfoldable pub use Maps.{lookup, insert, delete, retain}
pub use Maps.{
  Dict, lookup-insert, lookup-delete, lookup-retain, lookup-retain-none, lookup-retain_holds,
  lookup-retain_all, lookup-delete_self, lookup-delete_ne, lookup-insert_self,
}
unfoldable pub use Sorting.{sort_slice}
pub use Sorting.{head?, All-sort_slice, head?-sort_slice}
pub use Errors.{Result, ok, err, ◌>>=◌, ◌>>◌, Result-cases}
pub use Prim.Native.String.{String}
pub use Prim.Native.Nat.{ℕ, zero, suc, ◌+◌, ◌-◌, ◌*◌, ◌/◌, ◌%◌, ◌^◌, ◌≤◌, ◌<◌}
pub use mathlib.Core.Path.{◌≡◌, refl, sym, ap, ap₂, subst, ◌∙◌}
pub use mathlib.Core.Logic.{◌≢◌, ◌↔◌, ◌⊎◌, inl, inr}
pub use mathlib.Core.Bool.{Bool, true, false, not, ◌&&◌, ◌||◌}
pub use mathlib.Core.Option.{Option, none, some}
pub use mathlib.Core.List.{List, [], ◌∷◌, ◌++◌, map, append-nil, append_assoc}
pub use native.Mathlib.Omega.{arith}
pub use text.Mathlib.Text.{◌==◌}
pub use text.Mathlib.TextEquality.{eq_iff}
pub use text.Mathlib.TextPositions.{eq_refl}
