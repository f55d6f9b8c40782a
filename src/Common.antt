-- ===== src/Common.antt =====
-- The names that the other modules share: those of the libraries, passed on, and the helpers below.
mod Tests
mod Lists
mod Results
pub mod Int
mod Encoding
mod Eui
mod Map
pub mod Decimal
pub mod Hex
pub mod Strings
pub use Tests.*
pub use Lists.*
pub use Results.*
unfoldable pub use Encoding.*
pub use Eui.*
unfoldable pub use Map.*
pub use Prim.Native.Nat.{ℕ, zero, suc, ◌+◌, ◌-◌, ◌*◌, ◌/◌, ◌%◌, ◌^◌, ◌≤◌, ◌<◌}
pub use mathlib.Core.Path.{◌≡◌, refl, sym, ap, ◌∙◌}
pub use mathlib.Core.Logic.{◌≢◌, ◌↔◌, ◌⊎◌, inl, inr}
pub use mathlib.Core.Bool.{Bool, true, false, not, ◌&&◌, ◌||◌}
pub use mathlib.Core.Option.{Option, none, some}
pub use mathlib.Core.List.{List, [], ◌∷◌, ◌++◌, map}
pub use native.Mathlib.Omega.{arith}
