-- ===== src/Prelude.antt =====
-- The names that the modules share: the libraries', passed on, the tests on native numbers, and
-- those of two children (lists and dictionaries; results; state with exceptions).
mod Tests
mod Lists
mod Maps
mod Predicates
pub mod Results
pub mod Effects
pub use Tests.*
pub use Lists.*
pub use Maps.*
pub use Predicates.*
pub use Results.{
  Exn, json_exception, std_exception, non_std, Result, ok, throw, traverse, traverse-map, bind_ok,
}
pub use Prim.Native.Nat.{ℕ, zero, suc, ◌+◌, ◌-◌, ◌%◌, ◌^◌, ◌≤◌, ◌<◌}
pub use Prim.Native.String.{String}
pub use mathlib.Core.Path.{◌≡◌, refl, sym, ap, subst, ◌∙◌}
pub use mathlib.Core.Logic.{◌≢◌, ◌↔◌, ◌⊎◌, inl, inr}
pub use mathlib.Core.Bool.{Bool, true, false, not, ◌&&◌, ◌||◌}
pub use mathlib.Core.Option.{Option, none, some, some-injective}
pub use mathlib.Core.List.{List, [], ◌∷◌, ◌++◌, map}
pub use native.Mathlib.Omega.{arith}
pub use text.Mathlib.Text.{◌==◌ as str_eq}
pub use text.Mathlib.TextEquality.{eq_iff}
