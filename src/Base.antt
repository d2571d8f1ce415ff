-- ===== src/Base.antt =====
-- The names that all parts of the development share.
mod Tests
mod Lists
pub mod Dict
pub mod Errors
pub mod Int
pub mod Chars
pub mod Counting
pub use Tests.*
pub use Lists.*
pub use Prim.Native.Nat.{ℕ, zero, suc, ◌+◌, ◌-◌, ◌*◌, ◌/◌, ◌≤◌, ◌<◌, max}
pub use mathlib.Core.Path.{◌≡◌, refl, sym, ap, subst, ◌∙◌}
pub use mathlib.Core.Logic.{◌≢◌, ◌↔◌, ◌⊎◌, inl, inr}
pub use mathlib.Core.Bool.{Bool, true, false, not, ◌&&◌, ◌||◌}
pub use mathlib.Core.Option.{Option, none, some}
pub use mathlib.Core.List.{List, [], ◌∷◌, ◌++◌, map, reverse}
pub use native.Mathlib.Omega.{arith}

-- A string that the program only compares is a number, its code under a numbering of the
-- strings in which 0 is the empty string.
abbrev pub Text : Type 0
Text = ℕ

-- Times are whole microseconds since a fixed origin; durations are given in seconds.
abbrev pub second : ℕ
second = 1000000
