-- ===== src/Prelude.antt =====
-- Names that every module of the library shares: the libraries', passed on, and those of the
-- children, which hold tests on numbers and texts, lists, dictionaries, Python values and the
-- monad of stateful code that may raise.
mod Tests
mod Lists
mod Finding
mod Equality
pub mod Sorting
pub mod Dict
pub mod Exec
mod Values
pub use Tests.*
unfoldable pub use Lists.*
unfoldable pub use Finding.*
unfoldable pub use Equality.*
unfoldable pub use Values.*
pub use Prim.Native.Nat.{ℕ, zero, suc, ◌+◌, ◌-◌, ◌*◌, ◌/◌, ◌%◌, ◌≤◌, ◌<◌, min, max}
pub use Prim.Native.String.{String, ◌++◌ as ◌<>◌}
pub use mathlib.Core.Path.{◌≡◌, refl, sym, ap, ◌∙◌, subst}
pub use mathlib.Core.Logic.{◌≢◌, ◌↔◌, ◌⊎◌, inl, inr}
pub use mathlib.Core.Bool.{Bool, true, false, not, ◌&&◌, ◌||◌}
pub use mathlib.Core.Option.{Option, none, some, some-injective, none-ne-some}
pub use mathlib.Core.List.{List, [], ◌∷◌, ◌++◌, map, append-nil, append_assoc}
pub use native.Mathlib.Omega.{arith}
