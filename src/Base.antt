-- ===== src/Base.antt =====
-- The names that every module shares: the libraries', passed on, with tests, texts, results, ordered maps
-- and sums. It stands for no code of the repository; `Map` follows Rust's `BTreeMap`.
mod Tests
mod Lists
pub mod Text
pub mod Split
pub mod Number
pub mod Result
pub mod Map
pub mod Orders
pub mod Word
pub mod Time
pub mod Frames
pub mod Returns
pub use Tests.*
pub use Lists.*
pub use Prim.Native.Nat.{ℕ, zero, suc, ◌+◌, ◌-◌, ◌*◌, ◌/◌, ◌%◌, ◌^◌, ◌≤◌, ◌<◌, min, max, Ordering}
pub use mathlib.Core.Path.{◌≡◌, refl, sym, ap, ◌∙◌}
pub use mathlib.Core.Logic.{◌≢◌, ◌↔◌, ◌⊎◌, inl, inr}
pub use mathlib.Core.Bool.{Bool, true, false, not, ◌&&◌, ◌||◌}
pub use mathlib.Core.Option.{Option, none, some}
pub use mathlib.Core.List.{List, [], ◌∷◌, ◌++◌, map, append-nil, append_assoc}
pub use native.Mathlib.Omega.{arith}
unfoldable pub use native.Mathlib.Decide.{dec_lt}
