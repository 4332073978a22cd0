-- ===== src/Prelude.antt =====
-- The names that the modules of this library share: those of the libraries, passed on, the Boolean
-- tests, the lists with native indices, the texts and the results of code that throws.
mod Tests
mod Lists
mod Splits
mod Texts
mod Results
mod Doubles
mod Reports
pub use Tests.*
pub use Lists.*
pub use Splits.*
unfoldable pub use Texts.*
pub use Results.*
unfoldable pub use Doubles.*
unfoldable pub use Reports.*
pub use Prim.Native.Nat.{ℕ, zero, suc, ◌+◌, ◌-◌, ◌*◌, ◌/◌, ◌%◌, ◌^◌, ◌≤◌, ◌<◌}
pub use Prim.Native.String.{String}
pub use mathlib.Core.Path.{◌≡◌, refl, sym, ap, ◌∙◌}
pub use mathlib.Core.Logic.{◌≢◌, ◌↔◌, ◌⊎◌, inl, inr}
pub use mathlib.Core.Bool.{Bool, true, false, not, ◌&&◌, ◌||◌}
pub use mathlib.Core.Option.{Option, none, some}
pub use mathlib.Core.List.{List, [], ◌∷◌, ◌++◌, map, append-nil, append_assoc}
pub use native.Mathlib.Omega.{arith}
