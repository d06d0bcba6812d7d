-- ===== src/Base.antt =====
-- What the parts of the web client share: the libraries' names, passed on, Boolean tests, lists
-- measured by native numbers, and texts as JavaScript has them.
mod Tests
mod Lists
mod Filter
mod Text
mod Affix
mod Lower
pub use Tests.*
pub use Lists.*
pub use Filter.*
unfoldable pub use Text.*
pub use Affix.*
pub use Lower.*
pub use Prim.Native.Nat.{ℕ, zero, suc, ◌+◌, ◌-◌, ◌*◌, ◌/◌, ◌%◌, ◌^◌, ◌≤◌, ◌<◌, min}
pub use mathlib.Core.Path.{◌≡◌, refl, sym, ap, ◌∙◌, ◌≡⟨◌⟩◌, ◌∎}
pub use mathlib.Core.Logic.{◌≢◌, ◌↔◌, ◌⊎◌, inl, inr}
pub use mathlib.Core.Bool.{Bool, true, false, not, ◌&&◌, ◌||◌}
pub use mathlib.Core.Option.{Option, none, some}
pub use mathlib.Core.List.{List, [], ◌∷◌, ◌++◌, map, append_assoc, append-nil}
pub use native.Mathlib.Omega.{arith}
