-- ===== src/Base.antt =====
-- The names that the other modules share: the library's, passed on, and those of the children
-- (Boolean tests, the machine's words, the kernel's error returns, lists).
mod Tests
mod Words
mod Returns
pub mod Lists
pub mod Rules
pub use Tests.*
unfoldable pub use Words.{u8, u64, add64, sub64}
pub use Words.{u64_size, u8_size, u64-lt, add64-eq, sub64-eq, add64-lt}
pub use Returns.*
pub use Prim.Native.Nat.{ℕ, zero, suc, ◌+◌, ◌-◌, ◌*◌, ◌/◌, ◌%◌, ◌^◌, ◌≤◌, ◌<◌}
pub use Prim.Native.Nat.{compare, Ordering, min, max}
pub use mathlib.Core.Path.{◌≡◌, refl, sym, ap, ◌∙◌, subst}
pub use mathlib.Core.Logic.{◌≢◌, ◌↔◌, ◌⊎◌, inl, inr}
pub use mathlib.Core.Bool.{Bool, true, false, not, ◌&&◌, ◌||◌}
pub use mathlib.Core.Option.{Option, none, some}
pub use mathlib.Core.List.{List, [], ◌∷◌, ◌++◌}
pub use native.Mathlib.Omega.{arith}
