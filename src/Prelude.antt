-- ===== src/Prelude.antt =====
-- The names that the other modules share: the libraries', passed on, and those of the children.
mod Tests
mod Lists
mod Int
mod Assoc
mod Tally
mod Raises
pub use Tests.*
pub use Lists.*
pub use Int.*
pub use Raises.*
unfoldable pub use Assoc.{lookup, insert, delete}
pub use Assoc.{lookup-insert, lookup-delete}
unfoldable pub use Tally.{upsert, dict_of, put_pair}
pub use Tally.{
  or_else, of_key, lookup-fold-upsert, lookup-dict_of, lookup-fold_put, last_of, last_of-append,
  lookup-dict_of_pairs, map_option, lookup-map_values,
}
pub use Prim.Native.Nat.{ℕ, zero, suc, ◌+◌, ◌-◌, ◌*◌, ◌/◌, ◌%◌, ◌≤◌, ◌<◌, min, max}
pub use Prim.Native.String.{String}
pub use mathlib.Core.Path.{◌≡◌, refl, sym, ap, ◌∙◌}
pub use mathlib.Core.Logic.{◌≢◌, ◌↔◌, ◌⊎◌, inl, inr}
pub use mathlib.Core.Bool.{Bool, true, false, not, ◌&&◌, ◌||◌}
pub use mathlib.Core.Option.{Option, none, some}
pub use mathlib.Core.List.{List, [], ◌∷◌, ◌++◌, map}
pub use native.Mathlib.Omega.{arith}
