-- ===== src/Prelude.antt =====
-- The names that all modules share: the libraries', passed on, and those of the modules below.
pub mod Tests
pub mod Lists
pub mod Maps
pub mod Results
pub mod Sort
pub use Tests.*
pub use Lists.{
  length, take, drop, replicate, length-append, length-replicate, keep-append, length-map, All,
  All-append, All-map,
}
unfoldable pub use Lists.{keep}
pub use Maps.{
  tests, entries, Dict, Eq, ◌≐◌, nat_eq, string_eq, lookup-insert, lookup-delete, ≐_refl, ≐_ne,
}
unfoldable pub use Maps.{lookup, insert, delete}
pub use Results.*
pub use Prim.Native.Nat.{ℕ, zero, suc, ◌+◌, ◌-◌, ◌*◌, ◌/◌, ◌%◌, ◌^◌, ◌≤◌, ◌<◌}
pub use Prim.Native.String.{String}
pub use mathlib.Core.Path.{◌≡◌, refl, sym, ap, ◌∙◌, subst}
pub use mathlib.Core.Logic.{◌≢◌, ◌↔◌, ◌⊎◌, inl, inr}
pub use mathlib.Core.Bool.{Bool, true, false, not, ◌&&◌, ◌||◌}
pub use mathlib.Core.Option.{Option, none, some}
pub use mathlib.Core.List.{List, [], ◌∷◌, ◌++◌, map}
pub use native.Mathlib.Omega.{arith}
pub use text.Mathlib.TextEquality.{eq_iff}
