-- ===== src/Common.antt =====
-- The names that the other modules share: the libraries', passed on, and those of the children.
mod Tests
mod Lists
mod Strings
mod Scan
mod Results
pub mod Maps
pub use Tests.*
pub use Lists.*
pub use Strings.*
unfoldable pub use Strings.{
  text_beq, bytes, is_whitespace, trim_start_matches, trim_end_matches, strip_prefix,
}
unfoldable pub use Scan.{
  before_first, from_first, split_after, split, to_ascii_lowercase, digits_value, parse_u64,
}
pub use Scan.*
pub use Results.*
pub use Prim.Native.Nat.{ℕ, zero, suc, ◌+◌, ◌-◌, ◌*◌, ◌/◌, ◌%◌, ◌^◌, ◌≤◌, ◌<◌}
pub use mathlib.Core.Path.{◌≡◌, refl, sym, ap, ◌∙◌}
pub use mathlib.Core.Logic.{◌≢◌, ◌↔◌, ◌⊎◌, inl, inr}
pub use mathlib.Core.Bool.{Bool, true, false, not, ◌&&◌, ◌||◌}
pub use mathlib.Core.Option.{Option, none, some}
pub use mathlib.Core.List.{List, [], ◌∷◌, ◌++◌, map}
pub use native.Mathlib.Omega.{arith}
