-- ===== src/Common.antt =====
-- What the modules share: library names, Boolean tests, texts as bytes, Go's maps and results.
mod Tests
mod Equality
mod Texts
mod Results
mod Length
mod Split
pub mod Dict
pub use Tests.*
pub use Equality.*
unfoldable pub use Texts.*
unfoldable pub use Split.*
pub use Results.*
pub use Length.*
pub use Prim.Native.Nat.{ℕ, zero, suc, ◌+◌, ◌-◌, ◌*◌, ◌/◌, ◌%◌, ◌^◌, ◌≤◌, ◌<◌}
pub use Prim.Native.String.{String}
pub use mathlib.Core.Path.{◌≡◌, refl, sym, ap, ◌∙◌}
pub use mathlib.Core.Logic.{◌≢◌, ◌↔◌, ◌⊎◌, inl, inr}
pub use mathlib.Core.Bool.{Bool, true, false, ◌&&◌, ◌||◌, not}
pub use mathlib.Core.Option.{Option, none, some}
pub use mathlib.Core.List.{List, [], ◌∷◌, ◌++◌, map, append_assoc, append-nil}
pub use native.Mathlib.Omega.{arith}
