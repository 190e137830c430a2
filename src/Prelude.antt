-- ===== src/Prelude.antt =====
-- The names that the components share: the libraries', passed on, and those of the children below,
-- which stand for what the Go language and its standard library give to every package.
mod Tests
mod Text
mod Maps
mod Results
mod Checks
pub mod Int
pub use Tests.*
unfoldable pub use Text.{quote, sprintf, hex_digit, utf8, decimal}
pub use Text.{sprintf_plain, NoPercent, codes, codes_injective, utf8-append}
pub use Maps.*
pub use Results.*
pub use Prim.Native.Nat.{ℕ, zero, suc, ◌+◌, ◌-◌, ◌*◌, ◌/◌, ◌%◌, ◌^◌, ◌≤◌, ◌<◌}
pub use Prim.Native.String.{String}
pub use mathlib.Core.Path.{◌≡◌, refl, sym, ap, ◌∙◌}
pub use mathlib.Core.Logic.{◌≢◌, ◌↔◌, ◌⊎◌, inl, inr}
pub use mathlib.Core.Bool.{Bool, true, false, ◌&&◌, ◌||◌, not}
pub use mathlib.Core.Option.{Option, none, some}
pub use mathlib.Core.List.{List, [], ◌∷◌, ◌++◌, map}
pub use native.Mathlib.Omega.{arith}
pub use text.Mathlib.Text.{◌==◌}
pub use text.Mathlib.TextEquality.{eq_iff}
pub use text.Mathlib.TextPositions.{eq_refl}
