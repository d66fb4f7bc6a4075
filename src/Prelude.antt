-- ===== src/Prelude.antt =====
-- Names that every module shares: the libraries' and those of the modules below.
mod Tests
mod Equality
mod Lists
mod Sorting
mod Dicts
mod Sets
unfoldable pub use Tests.*
unfoldable pub use Equality.*
unfoldable pub use Lists.*
unfoldable pub use Sorting.*
unfoldable pub use Dicts.*
pub use Sets.*
pub use Prim.Native.Nat.{ℕ, zero, suc, ◌+◌, ◌-◌, ◌*◌, ◌/◌, ◌%◌, ◌≤◌, ◌<◌, min, max}
pub use mathlib.Core.Path.{◌≡◌, refl, sym, ap, ◌∙◌}
pub use mathlib.Core.Logic.{◌≢◌, ◌↔◌, ◌⊎◌, inl, inr}
pub use mathlib.Core.Bool.{Bool, true, false, ◌&&◌, ◌||◌, not}
pub use mathlib.Core.Option.{Option, none, some, some-injective}
pub use mathlib.Core.List.{List, [], ◌∷◌, ◌++◌, map, append-nil, append_assoc}
pub use native.Mathlib.Omega.{arith}
