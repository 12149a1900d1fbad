-- ===== src/Prelude.antt =====
-- The names that all components share: the libraries', passed on, and the shared helpers.
mod Tests
mod Lists
mod Rows
mod Sort
mod Dicts
mod Texts
mod Ints
mod Responses
mod Ordered
pub use Tests.*
pub use Lists.*
pub use Rows.*
pub use Sort.*
pub use Texts.*
pub use Ints.*
pub use Responses.*
pub use Ordered.*
unfoldable pub use Dicts.*
pub use Prim.Native.Nat.{
  ℕ, zero, suc, ◌+◌, ◌-◌, ◌*◌, ◌/◌, ◌%◌, ◌≤◌, ◌<◌, min, max, compare, Ordering,
}
pub use Prim.Native.String.{String}
pub use mathlib.Core.Path.{◌≡◌, refl, sym, ap, ◌∙◌, fun_ext}
pub use mathlib.Core.Logic.{◌≢◌, ◌↔◌, ◌⊎◌, inl, inr}
pub use mathlib.Core.Bool.{Bool, true, false, not, ◌&&◌, ◌||◌}
pub use mathlib.Core.Option.{Option, none, some}
pub use mathlib.Core.List.{List, [], ◌∷◌, ◌++◌, map, Memᴰ}
pub use native.Mathlib.Omega.{arith}
pub use text.Mathlib.TextEquality.{eq_iff}
