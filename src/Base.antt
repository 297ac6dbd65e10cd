-- ===== src/Base.antt =====
-- Names and lemmas that every component shares: the library's, passed on, and those of the
-- children, which model the parts of the JavaScript language that the sources use (strings as
-- UTF-16 code units, `Array.prototype.sort`, `Map`, `Set`).
mod Tests
mod Orders
mod Sort
mod Perms
mod Maps
mod Texts
mod Lists
mod Strings
pub use Tests.*
pub use Orders.*
pub use Lists.*
unfoldable pub use Texts.*
pub use Maps.*
unfoldable pub use Strings.*
pub use Perms.*
pub use Sort.*
pub use Prim.Native.Nat.{ℕ, zero, suc, ◌+◌, ◌-◌, ◌*◌, ◌≤◌, ◌<◌, compare, Ordering}
pub use mathlib.Core.Path.{◌≡◌, refl, sym, ap, ap₂, ◌∙◌, subst}
pub use mathlib.Core.Logic.{◌≢◌, ◌↔◌, ◌⊎◌, inl, inr}
pub use mathlib.Core.Bool.{Bool, true, false, not, ◌&&◌, ◌||◌}
pub use mathlib.Core.Option.{Option, none, some}
pub use mathlib.Core.List.{List, [], ◌∷◌, ◌++◌, map, reverse, Perm, append_assoc, append-nil}
pub use native.Mathlib.Omega.{arith}
