-- ===== src/Base.antt =====
-- The names that the other modules share: the libraries', passed on, and those of the children.
mod Tests
mod Lists
mod Maps
pub mod Exec
pub mod Integers
pub mod Http
pub use Tests.*
pub use Lists.*
unfoldable pub use Maps.{Map, get, set, delete, has, size, keys, values}
pub use Maps.{
  UniqueKeys, is_some, has-get, get-set, get-delete, get-set_self, set-UniqueKeys,
  delete-UniqueKeys, delete_absent, size-delete, delete-set_new, get-delete_self,
}
pub use Prim.Native.Nat.{ℕ, zero, suc, ◌+◌, ◌-◌, ◌*◌, ◌/◌, ◌%◌, ◌≤◌, ◌<◌, max}
pub use Prim.Native.String.{String}
pub use mathlib.Core.Path.{◌≡◌, refl, sym, subst, subst₂, ap, ◌∙◌, fun_ext}
pub use mathlib.Core.Logic.{◌≢◌, ◌↔◌, ◌⊎◌, inl, inr}
pub use mathlib.Core.Bool.{Bool, true, false, not, ◌&&◌, ◌||◌}
pub use mathlib.Core.Option.{Option, none, some}
pub use mathlib.Core.List.{List, [], ◌∷◌, ◌++◌, map}
pub use native.Mathlib.Omega.{arith}
pub use text.Mathlib.TextEquality.{eq_iff}
pub use mathlib.Core.List.{reverse}
