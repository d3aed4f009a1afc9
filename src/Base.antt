-- ===== src/Base.antt =====
-- The names that every module shares: the libraries', passed on, and those of the children.
mod Tests
mod Lists
mod Assoc
mod Sort
mod Choose
mod Text
pub use Tests.*
pub use Lists.*
pub use Assoc.*
pub use Sort.*
pub use Choose.*
pub use Text.*
unfoldable pub use Lists.{contains, any, all}
unfoldable pub use Assoc.{lookup, upsert, group_by, add_to_group}
unfoldable pub use Sort.{insert_by, sort_onto, sort_by}
unfoldable pub use Choose.{pick}
unfoldable pub use Text.{split_on}
pub use Prim.Native.Nat.{ℕ, zero, suc, ◌+◌, ◌-◌, ◌*◌, ◌≤◌, ◌<◌, min, max}
pub use Prim.Native.String.{String}
pub use mathlib.Core.Path.{◌≡◌, refl, sym, ap, ◌∙◌, subst}
pub use mathlib.Core.Logic.{◌≢◌, ◌↔◌, ◌⊎◌, inl, inr}
pub use mathlib.Core.Bool.{Bool, true, false, not, ◌&&◌, ◌||◌}
pub use mathlib.Core.Option.{Option, none, some}
pub use mathlib.Core.List.{List, [], ◌∷◌, ◌++◌, map, append-nil, append_assoc}
pub use native.Mathlib.Omega.{arith}
pub use text.Mathlib.TextEquality.{eq_iff}
pub use text.Mathlib.TextPositions.{eq_refl}
