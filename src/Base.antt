-- ===== src/Base.antt =====
-- The names that the components share: the libraries', passed on, tests on numbers, searches in
-- tables (lists of rows) and their lemmas.
mod Tests
mod Lists
mod Tables
mod Texts
mod Paths
pub use Tests.*
pub use Lists.*
pub use Tables.*
unfoldable pub use Paths.{path_name, suffix_of}
unfoldable pub use Texts.{lstrip, strip, join, split_loop, split, stripped_items, starts_with}
pub use Texts.{Text, codes, text_eq, text_eq→≡, text_eq_self, text_eq_iff, is_empty, is_space}
pub use Prim.Native.Nat.{ℕ, zero, suc, ◌+◌, ◌-◌, ◌*◌, ◌/◌, ◌%◌, ◌≤◌, ◌<◌, min, max}
pub use Prim.Native.String.{String}
pub use mathlib.Core.Path.{◌≡◌, refl, sym, ap, subst, ◌∙◌}
pub use mathlib.Core.Logic.{◌≢◌, ◌⊎◌, ◌↔◌, inl, inr}
pub use mathlib.Core.Bool.{Bool, true, false, not, ◌&&◌, ◌||◌}
pub use mathlib.Core.Option.{Option, none, some}
pub use mathlib.Core.List.{List, [], ◌∷◌, ◌++◌, map}
pub use native.Mathlib.Omega.{arith}
