-- ===== src/Base/ByteStrings.antt =====
-- Byte strings: Go's `[]byte` and `string` are lists of numbers below 256. The big-endian numbers
-- of encoding/binary, the equality of strings, and the bytes of an ASCII text.
use Prim.Native.Nat.{ℕ, ◌+◌, ◌*◌, ◌/◌, ◌%◌, ◌<◌, ◌^◌}
use Prim.Native.Char.{code}
use Prim.Native.String.{String}
use mathlib.Core.Path.{◌≡◌}
use mathlib.Core.Bool.{Bool, true, false, ◌&&◌}
use mathlib.Core.Logic.{◌↔◌}
use mathlib.Core.List.{List, [], ◌∷◌, ◌++◌}
use native.Mathlib.Omega.{arith}
use bhttp_1_http_in_binary.Base.Tests.{◌==◌}
use bhttp_1_http_in_binary.Base.Lists.{All}

abbrev pub Bytes : Type 0
Bytes = List ℕ

abbrev pub IsByte : ℕ → Type 0
IsByte b = b < 256

-- The code points of a text, which are its bytes where it is ASCII.
abbrev pub codes : String → Bytes
codes String.[] = []
codes (String.◌∷◌ c s) = code c ∷ codes s

-- `==` on strings.
unfoldable pub bytes_eq : Bytes → Bytes → Bool
bytes_eq [] [] = true
bytes_eq [] (y ∷ ys) = false
bytes_eq (x ∷ xs) [] = false
bytes_eq (x ∷ xs) (y ∷ ys) = x == y && bytes_eq xs ys

pub bytes_eq_iff : (a b : Bytes) → (bytes_eq a b ≡ true) ↔ (a ≡ b)
unfolding bytes_eq
bytes_eq_iff [] [] = ground arith
bytes_eq_iff [] (y ∷ ys) = ground arith
bytes_eq_iff (x ∷ xs) [] = ground arith
bytes_eq_iff (x ∷ xs) (y ∷ ys) = ground (arith, bytes_eq_iff xs ys)

-- `binary.BigEndian.AppendUint16` and `PutUint32`, on a number that is cut to its width.
unfoldable pub put_u16 : ℕ → Bytes
put_u16 v = v / 256 % 256 ∷ v % 256 ∷ []

unfoldable pub put_u32 : ℕ → Bytes
put_u32 v = v / 2 ^ 24 % 256 ∷ v / 2 ^ 16 % 256 ∷ v / 2 ^ 8 % 256 ∷ v % 256 ∷ []

-- `binary.BigEndian.Uint16` and `Uint32`. The program calls them on slices that are long enough.
unfoldable pub be_u16 : Bytes → ℕ
be_u16 (a ∷ b ∷ _) = a * 2 ^ 8 + b
be_u16 _ = 0

unfoldable pub be_u32 : Bytes → ℕ
be_u32 (a ∷ b ∷ c ∷ d ∷ _) = a * 2 ^ 24 + b * 2 ^ 16 + c * 2 ^ 8 + d
be_u32 _ = 0

pub be_u16-put_u16 : (v : ℕ) → v < 2 ^ 16 → be_u16 (put_u16 v) ≡ v
unfolding be_u16 put_u16
be_u16-put_u16 v h = omega arith

pub be_u32-put_u32 : (v : ℕ) (rest : Bytes) → v < 2 ^ 32 → be_u32 (put_u32 v ++ rest) ≡ v
unfolding be_u32 put_u32
be_u32-put_u32 v rest h = omega arith

pub be_u16-lt : (a b : ℕ) → IsByte a → IsByte b → be_u16 (a ∷ b ∷ []) < 2 ^ 16
unfolding be_u16
be_u16-lt a b ha hb = omega arith

pub put_u16-be_u16 : (a b : ℕ) → IsByte a → IsByte b → put_u16 (be_u16 (a ∷ b ∷ [])) ≡ a ∷ b ∷ []
unfolding be_u16 put_u16
put_u16-be_u16 a b ha hb = ground arith

pub put_u16-IsByte : (v : ℕ) → All IsByte (put_u16 v)
unfolding put_u16
put_u16-IsByte v = omega arith

pub put_u32-IsByte : (v : ℕ) → All IsByte (put_u32 v)
unfolding put_u32
put_u32-IsByte v = omega arith
