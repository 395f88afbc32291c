-- ===== src/Base.antt =====
-- The names that every other module shares: the libraries', passed on, and those of the children:
-- tests and conditionals (Compare), lists (Lists), Go maps (Dict) and Go strings (Strings). It models
-- no code of its own.
mod Compare
mod Lists
pub mod Dict
pub mod Paths
mod Strings
mod Perms
mod Int
unfoldable pub use Compare.*
unfoldable pub use Lists.*
unfoldable pub use Strings.*
pub use Perms.*
unfoldable pub use Int.*
pub use Prim.Native.Nat.{ℕ, zero, suc, ◌+◌, ◌-◌, ◌*◌, ◌/◌, ◌%◌, ◌^◌, ◌≤◌, ◌<◌, min, max}
pub use mathlib.Core.Path.{◌≡◌, refl, sym, ap, subst, ◌∙◌}
pub use mathlib.Core.Logic.{◌≢◌, ◌↔◌, ◌⊎◌, inl, inr, ite}
pub use mathlib.Core.Bool.{Bool, true, false, not, ◌&&◌, ◌||◌}
pub use mathlib.Core.Option.{Option, none, some}
pub use mathlib.Core.List.{List, [], ◌∷◌, ◌++◌, map, Perm}
pub use native.Mathlib.Omega.{arith}
unfoldable pub use native.Mathlib.Decide.{dec_lt, ℕ_discrete}
