-- ===== src/Common.antt =====
-- The names that the other modules share: the libraries', passed on, and those of the children.
mod Tests
mod Lists
mod Int
mod Strings
mod Results
mod Maps
mod Sorting
pub use Tests.*
pub use Lists.*
pub use Int.*
unfoldable pub use Strings.*
pub use Results.*
unfoldable pub use Maps.*
unfoldable pub use Sorting.*
pub use Prim.Native.Nat.{ℕ, zero, suc, ◌+◌, ◌-◌, ◌*◌, ◌/◌, ◌%◌, ◌^◌, ◌≤◌, ◌<◌, min}
pub use mathlib.Core.Path.{◌≡◌, refl, sym, ap, ◌∙◌}
pub use mathlib.Core.Logic.{◌≢◌, ◌↔◌, ◌⊎◌, inl, inr}
pub use mathlib.Core.Bool.{Bool, true, false, not, ◌&&◌, ◌||◌}
pub use mathlib.Core.Option.{Option, none, some}
pub use mathlib.Core.List.{List, [], ◌∷◌, ◌++◌, map}
pub use native.Mathlib.Omega.{arith}

-- `time.Time`: nanoseconds since the zero time; 0 is `time.Time{}`. `now.Before(t)` is `ltb now t`.
abbrev pub Time : Type 0
Time = ℕ

-- Nanoseconds in a second.
abbrev pub second : ℕ
second = 1000000000
