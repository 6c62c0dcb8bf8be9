-- ===== src/Protocol/Cursor.antt =====
-- The cursor on bytes that were laid out for it.
pub mod Reads
use bhttp_1_http_in_binary.Base.{
  ℕ, ◌<◌, ◌^◌, ◌≡◌, refl, arith, Bytes, [], ◌∷◌, ◌++◌, ok, length, length-append, take-append,
  drop-append, put_u16, be_u16-put_u16, take-append-drop, length-take,
}
use bhttp_1_http_in_binary.Protocol.{take_bytes, u8, u16, finish}

pub take_bytes-append :
    (n : ℕ) (xs rest : Bytes) → length xs ≡ n → take_bytes n (xs ++ rest) ≡ ok xs rest
unfolding take_bytes
take_bytes-append n xs rest h =
    ground (arith, length-append xs rest, take-append n xs rest h, drop-append n xs rest h)

pub u8-cons : (b : ℕ) (rest : Bytes) → u8 (b ∷ rest) ≡ ok b rest
unfolding u8 take_bytes
u8-cons b rest = ground arith

pub u16-put_u16 : (v : ℕ) (rest : Bytes) → v < 2 ^ 16 → u16 (put_u16 v ++ rest) ≡ ok v rest
unfolding u16
u16-put_u16 v rest h =
    rw (take_bytes-append 2 (put_u16 v) rest (unfold put_u16 in refl)) (rw (be_u16-put_u16 v h))

pub finish-nil : finish [] ≡ ok tt []
unfolding finish
finish-nil = refl

-- What a successful take has taken stood in front.
pub take_bytes-eq-ok :
    (n : ℕ) (c : Bytes) {xs rest : Bytes}
    → take_bytes n c ≡ ok xs rest
    → (c ≡ xs ++ rest) × (length xs ≡ n)
unfolding take_bytes
take_bytes-eq-ok n c h = (ground (arith, take-append-drop n c), ground (arith, length-take n c))
