-- ===== src/Protocol/Cursor/Reads.antt =====
-- How many bytes the cursor of internal/protocol moves on, and that what is left are bytes.
use bhttp_1_http_in_binary.Base.{
  ℕ, ◌+◌, ◌<◌, ◌^◌, ◌≡◌, ap, arith, [], ◌∷◌, ◌++◌, Bytes, IsByte, All, be_u16, be_u16-lt, ok,
  length, length-append,
}
use bhttp_1_http_in_binary.Protocol.{take_bytes, u8, u16}
use bhttp_1_http_in_binary.Protocol.Cursor.{take_bytes-eq-ok}

All-behind : (xs ys : Bytes) → All IsByte (xs ++ ys) → All IsByte ys
All-behind [] ys h = h
All-behind (x ∷ xs) ys (h, hs) = All-behind xs ys hs

-- A part of the cursor has been read, of `n` bytes.
pub record Reads (n : ℕ) (c rest : Bytes) : Type 0 where
  pub size : length c ≡ n + length rest
  pub bytes : All IsByte rest

pub take_bytes-Reads :
    (n : ℕ) (c : Bytes) {xs rest : Bytes}
    → All IsByte c
    → take_bytes n c ≡ ok xs rest
    → Reads n c rest × (length xs ≡ n)
take_bytes-Reads n c {xs} {rest} h e =
    let (split, size) = take_bytes-eq-ok n c e in
    (
      record {
        size = omega (arith, ap length split, length-append xs rest, size);
        bytes = All-behind xs rest (rw split at h);
      },
      size,
    )

pub u8-Reads :
    (c : Bytes) {x : ℕ} {rest : Bytes} → All IsByte c → u8 c ≡ ok x rest → Reads 1 c rest × IsByte x
unfolding u8 take_bytes
u8-Reads [] h e = absurd (ground arith)
u8-Reads (b ∷ c) {x} {rest} h e =
    let same : c ≡ rest = ground arith in
    let here : b ≡ x = ground arith in
    (record { size = rw same (omega arith); bytes = rw same at h.1 }, rw here at h.0)

pub u16-Reads :
    (c : Bytes) {n : ℕ} {rest : Bytes}
    → All IsByte c
    → u16 c ≡ ok n rest
    → Reads 2 c rest × (n < 2 ^ 16)
unfolding u16 take_bytes
u16-Reads [] h e = absurd (ground arith)
u16-Reads (b ∷ []) h e = absurd (ground arith)
u16-Reads (a ∷ b ∷ c) {n} {rest} (ha, (hb, hc)) e =
    let same : c ≡ rest = ground arith in
    let here : be_u16 (a ∷ b ∷ []) ≡ n = ground arith in
    (
      record { size = rw same (omega arith); bytes = rw same at hc },
      rw here at (be_u16-lt a b ha hb),
    )
