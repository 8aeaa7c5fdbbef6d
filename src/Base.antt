-- ===== src/Base.antt =====
-- Shared names: the libraries', passed on, and those of the children on tests, lists, texts,
-- dictionaries and results.
mod Tests
mod Lists
mod Texts
mod Dicts
mod Results
mod Decimals
pub use Tests.*
pub use Lists.*
unfoldable pub use Texts.{same, has_prefix, has_suffix, split, trim_right, last_index}
pub use Texts.{
  Text, codes, same_refl, same_iff, same-false_iff, has_prefix-append, has_prefix_iff, IsFree,
}
unfoldable pub use Dicts.{lookup, insert, remove, keys}
pub use Dicts.{Dict, lookup-insert, lookup-remove, IsMap, insert-IsMap, keys-insert, keys-lookup}
unfoldable pub use Decimals.{decimal}
pub use Decimals.{decimal-ne-nil}
pub use Results.*
pub use Prim.Native.Nat.{ℕ, zero, suc, ◌+◌, ◌-◌, ◌*◌, ◌/◌, ◌%◌, ◌^◌, ◌≤◌, ◌<◌}
pub use mathlib.Core.Path.{◌≡◌, refl, sym, ap, ◌∙◌, fun_ext}
pub use mathlib.Core.Logic.{◌≢◌, ◌↔◌, ◌⊎◌, inl, inr}
pub use mathlib.Core.Bool.{Bool, true, false, not, ◌&&◌, ◌||◌}
pub use mathlib.Core.Option.{Option, none, some}
pub use mathlib.Core.List.{List, [], ◌∷◌, ◌++◌, map, reverse, append_assoc, append-nil}
pub use native.Mathlib.Omega.{arith}
