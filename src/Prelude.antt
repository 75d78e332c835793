-- ===== src/Prelude.antt =====
-- The names that the other modules share: the libraries' names, passed on, and those of the
-- children. No code of the repository is modelled in this file.
mod Tests
mod Lists
mod Ints
mod Texts
mod Dicts
pub mod Sort
pub use Tests.*
pub use Lists.*
pub use Texts.{Text, codes, text_eq_iff, text_eq_refl, is_space}
unfoldable pub use Texts.{text_eq, text_lt, trim, cut_prefix, has_prefix, trim_prefix, has_suffix}
unfoldable pub use Texts.{trim_suffix, contains_char, count_char, cut, before_char, split, join}
unfoldable pub use Texts.{to_lower, equal_fold, decimal}
pub use Texts.Decimals.{decimal-injective, decimal-digits}
pub use Ints.*
pub use Dicts.{Dict, lookup-insert, has_iff}
unfoldable pub use Dicts.{lookup, insert, has}
pub use Prim.Native.Nat.{ℕ, zero, suc, ◌+◌, ◌-◌, ◌*◌, ◌/◌, ◌%◌, ◌^◌, ◌≤◌, ◌<◌}
pub use mathlib.Core.Path.{◌≡◌, refl, sym, ap, ◌∙◌, subst}
pub use mathlib.Core.Logic.{◌≢◌, ◌↔◌, ◌⊎◌, inl, inr}
pub use mathlib.Core.Bool.{Bool, true, false, not, ◌&&◌, ◌||◌}
pub use mathlib.Core.Option.{Option, none, some}
pub use mathlib.Core.List.{List, [], ◌∷◌, ◌++◌, map}
pub use native.Mathlib.Omega.{arith}
