-- ===== src/Prelude.antt =====
-- The names that the other modules share: the libraries' and those of the child modules.
mod Bools
mod Lists
mod Outcome
mod Text
mod Maps
mod Int
mod Buffer
mod Digits
mod Utf8
unfoldable pub use Bools.*
unfoldable pub use Lists.*
pub use Outcome.*
unfoldable pub use Text.*
unfoldable pub use Maps.*
pub use Int.*
unfoldable pub use Buffer.*
unfoldable pub use Digits.*
unfoldable pub use Utf8.*
pub use Prim.Native.Nat.{ℕ, zero, suc, ◌+◌, ◌-◌, ◌*◌, ◌/◌, ◌%◌, ◌^◌, ◌≤◌, ◌<◌}
pub use Prim.Native.String.{String}
pub use mathlib.Core.Path.{◌≡◌, refl, sym, ap, ◌∙◌, subst}
pub use mathlib.Core.Logic.{◌≢◌, ◌↔◌, ◌⊎◌, inl, inr}
pub use mathlib.Core.Bool.{Bool, true, false, not, ◌&&◌, ◌||◌}
pub use mathlib.Core.Option.{Option, none, some}
pub use mathlib.Core.List.{List, [], ◌∷◌, ◌++◌, map}
pub use native.Mathlib.Omega.{arith}
