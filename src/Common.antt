-- ===== src/Common.antt =====
-- The vocabulary that every part shares: names of the libraries passed on, Boolean tests, lists over
-- the native numbers, machine words, ordered keys, text, the ordered map of the standard
-- library and the result type.
mod Tests
mod Lists
mod Words
mod Outcome
pub mod Ordered
pub mod TreeMap
pub mod Text
pub use Tests.*
pub use Lists.*
unfoldable pub use Lists.{sort, insert_sorted}
pub use Words.*
pub use Outcome.*
pub use Prim.Native.Nat.{ℕ, zero, suc, ◌+◌, ◌-◌, ◌*◌, ◌/◌, ◌%◌, ◌^◌, ◌≤◌, ◌<◌}
pub use mathlib.Core.Path.{◌≡◌, refl, sym, ap, ◌∙◌}
pub use mathlib.Core.Logic.{◌≢◌, ◌↔◌, ◌⊎◌, inl, inr}
pub use mathlib.Core.Bool.{Bool, true, false, not, ◌&&◌, ◌||◌}
pub use mathlib.Core.Option.{Option, none, some}
pub use mathlib.Core.List.{List, [], ◌∷◌, ◌++◌, map}
pub use native.Mathlib.Omega.{arith}
