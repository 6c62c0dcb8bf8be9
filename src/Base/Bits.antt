-- ===== src/Base/Bits.antt =====
-- The masks that the code applies to a flags byte, as arithmetic: tables of 256 entries.
use Prim.Native.Nat.{ℕ, zero, suc, ◌*◌, ◌/◌, ◌%◌, ◌<◌, bit_and}
use mathlib.Core.Path.{◌≡◌, refl}
use mathlib.Core.Bool.{Bool, true, ◌&&◌}
use native.Mathlib.Omega.{arith}
use bhttp_1_http_in_binary.Base.Tests.{◌==◌}

module _ (f g : ℕ → ℕ) where
  same_below : ℕ → Bool
  same_below zero = true
  same_below (suc n) = f n == g n && same_below n

  same_below→eq : (n : ℕ) → same_below n ≡ true → (b : ℕ) → b < n → f b ≡ g b
  unfolding same_below
  same_below→eq zero e b h = absurd (omega arith)
  same_below→eq (suc n) e b h = ground (arith, same_below→eq n (ground arith) b)

-- END_STREAM is the lowest bit.
pub bit_and-one : (b : ℕ) → b < 256 → bit_and b 1 ≡ b % 2
unfolding same_below
bit_and-one = same_below→eq _ _ 256 refl

-- `b &^ 1`, on a byte.
pub clear_low : (b : ℕ) → b < 256 → bit_and b 0xfe ≡ b / 2 * 2
unfolding same_below
clear_low = same_below→eq _ _ 256 refl
