-- ===== src/Base.antt =====
-- The names that the other modules share: the libraries', passed on, and those of the children.
mod Tests
mod Lists
mod ByteStrings
mod Errors
mod Effects
mod Bits
pub mod Decimal
pub mod Ints
pub use Bits.{bit_and-one, clear_low}
pub use Tests.*
pub use Lists.*
pub use Effects.*
pub use Errors.*
unfoldable pub use ByteStrings.{bytes_eq, put_u16, put_u32, be_u16, be_u32}
pub use ByteStrings.{Bytes, IsByte, codes, bytes_eq_iff, be_u16-put_u16, be_u32-put_u32, be_u16-lt}
pub use ByteStrings.{put_u16-be_u16, put_u16-IsByte, put_u32-IsByte}
pub use Prim.Native.Nat.{ℕ, zero, suc, ◌+◌, ◌-◌, ◌*◌, ◌/◌, ◌%◌, ◌^◌, ◌≤◌, ◌<◌, min, bit_and}
pub use mathlib.Core.Path.{◌≡◌, refl, sym, ap, subst, ◌∙◌}
pub use mathlib.Core.Logic.{◌≢◌, ◌↔◌, ◌⊎◌, inl, inr}
pub use mathlib.Core.Bool.{Bool, true, false, not, ◌&&◌, ◌||◌}
pub use mathlib.Core.Option.{Option, none, some}
pub use mathlib.Core.List.{List, [], ◌∷◌, ◌++◌, append-nil, append_assoc}
pub use native.Mathlib.Omega.{arith}
