-- ===== src/Protocol/Headers/Kept.antt =====
-- What `readHeaders` returns under the strict rules can be sent again, in no more bytes.
pub mod Names
use bhttp_1_http_in_binary.Base.{
  ℕ, zero, suc, ◌+◌, ◌*◌, ◌≤◌, ◌<◌, ◌^◌, ◌≡◌, refl, sym, ap, ◌∙◌, arith, true, false, Bool-cases,
  inl, inr, Option, some, none, Option-cases, List, [], ◌∷◌, ◌++◌, append-nil, append_assoc, Bytes,
  IsByte, All, put_u16, be_u16, be_u16-lt, success, ok, subst, ◌||◌, after-eq-ok, ok-inj, refused,
  length, length-append, get_or, ltb, ◌==◌,
}
use bhttp_1_http_in_binary.Protocol.{take_bytes, u8, u16, max_header_value_len, max_custom_name_len}
use bhttp_1_http_in_binary.Protocol.Cursor.{take_bytes-eq-ok}
use bhttp_1_http_in_binary.Protocol.Headers.{
  Header, clashes, table_id, table_names, valid_custom_name, name_form, name_bytes, strict_names,
  judge_name, read_name, read_id, kept, read_header, read_loop, read_counted, read_headers,
}
use bhttp_1_http_in_binary.Protocol.Headers.Table.{table_names-table_id}
use bhttp_1_http_in_binary.Protocol.Headers.Write.{Written, value_bytes, length-put_u16}
use bhttp_1_http_in_binary.Protocol.Cursor.Reads.{Reads, take_bytes-Reads, u8-Reads, u16-Reads}
use bhttp_1_http_in_binary.Protocol.Headers.Kept.Names.{
  Sendable, skipped, kept_name, read_name-Sendable,
}

-- Headers that can be sent in at most as many bytes as were read.
pub record Again (hs : List Header) (c rest : Bytes) : Type 0 where
  pub wire : Bytes
  pub written : Written hs wire
  pub fits : length wire + length rest ≤ length c
  pub bytes : All IsByte rest

kept-Again :
    (k : ℕ) (o : Option Bytes) (value c rest : Bytes)
    → Sendable k o
    → length value ≤ max_header_value_len
    → length c ≡ k + 2 + length value + length rest
    → All IsByte rest
    → Again (kept o value) c rest
unfolding name_bytes
kept-Again k none value c rest skipped small size bytes = record {
  wire = [];
  written = refl;
  fits = omega arith;
  bytes = bytes;
}
kept-Again k (some _) value c rest (kept_name n b e fits) small size bytes =
    let h : Header = record { name = n; value = value } in
    record {
      wire = b ++ (value_bytes h ++ []);
      written = (b, [], e, small, refl, refl);
      fits = omega (
        arith,
        length-append b (value_bytes h ++ []),
        length-append (value_bytes h) [],
        length-append (put_u16 (length value)) value,
        length-put_u16 (length value),
      );
      bytes = bytes;
    }

read_header-Again :
    (c : Bytes) {more : List Header} {rest : Bytes}
    → All IsByte c
    → read_header strict_names c ≡ ok more rest
    → Again more c rest
unfolding read_header read_id
read_header-Again c {more} {rest} h e =
    let (o, c2, name, e1) = after-eq-ok (read_id strict_names c) _ e in
    let (id, c1, first, named) = after-eq-ok (u8 c) _ name in
    let (n, c3, len, e2) = after-eq-ok (u16 c2) _ e1 in
    let (value, c4, taken, e3) = after-eq-ok (take_bytes n c3) _ e2 in
    let (r1, is_byte) = u8-Reads c h first in
    let (k, r2, sendable) = read_name-Sendable id c1 r1.bytes named in
    let (r3, n_lt) = u16-Reads c2 r2.bytes len in
    let (r4, size) = take_bytes-Reads n c3 r3.bytes taken in
    let (is, same) = ok-inj e3 in
    let all : Again (kept o value) c c4 =
      kept-Again (1 + k) o value c c4 sendable (omega (arith, n_lt, size))
        (omega (arith, r1.size, r2.size, r3.size, r4.size, size)) r4.bytes in
    rw (← is, ← same) all

length-kept : (o : Option Bytes) (v : Bytes) → length (kept o v) ≤ 1
length-kept none v = omega arith
length-kept (some n) v = omega arith

one_header :
    (c : Bytes) {more : List Header} {rest : Bytes}
    → read_header strict_names c ≡ ok more rest
    → length more ≤ 1
unfolding read_header
one_header c e =
    let (o, c2, name, e1) = after-eq-ok (read_id strict_names c) _ e in
    let (n, c3, len, e2) = after-eq-ok (u16 c2) _ e1 in
    let (value, c4, taken, e3) = after-eq-ok (take_bytes n c3) _ e2 in
    let (is, same) = ok-inj e3 in rw (← is) (length-kept o value)

Written-append :
    (xs ys : List Header) (bs cs : Bytes)
    → Written xs bs
    → Written ys cs
    → Written (xs ++ ys) (bs ++ cs)
Written-append [] ys bs cs is w = rw is w
Written-append (h ∷ hs) ys bs cs (name, rest, named, fits, is, more) w = (
  name,
  rest ++ cs,
  named,
  fits,
  rw is (cc (append_assoc name (value_bytes h ++ rest) cs, append_assoc (value_bytes h) rest cs)),
  Written-append hs ys rest cs more w,
)

-- The headers of the rounds that are left.
read_loop-Again :
    (n : ℕ) (hs : List Header) (c : Bytes) {all : List Header} {rest : Bytes}
    → All IsByte c
    → read_loop strict_names n hs c ≡ ok all rest
    → (new : List Header) × (all ≡ hs ++ new) × (length new ≤ n) × Again new c rest
unfolding read_loop
read_loop-Again zero hs c {all} {rest} h e =
    let (is, same) = ok-inj e in
    (
      [],
      sym is ∙ sym (append-nil hs),
      omega arith,
      record { wire = []; written = refl; fits = rw same (omega arith); bytes = rw same at h },
    )
read_loop-Again (suc n) hs c {all} {rest} h e =
    let (more, c1, one, e1) = after-eq-ok (read_header strict_names c) _ e in
    let first = read_header-Again c h one in
    let (new, is, few, later) = read_loop-Again n (hs ++ more) c1 first.bytes e1 in
    (
      more ++ new,
      is ∙ append_assoc hs more new,
      omega (arith, length-append more new, one_header c one),
      record {
        wire = first.wire ++ later.wire;
        written = Written-append more new first.wire later.wire first.written later.written;
        fits = omega (arith, length-append first.wire later.wire, first.fits, later.fits);
        bytes = later.bytes;
      },
    )

-- The headers that are read can be sent, with their count in front.
pub read_headers-Again :
    (c : Bytes) {hs : List Header} {rest : Bytes}
    → All IsByte c
    → read_headers strict_names c ≡ ok hs rest
    → (length hs < 256) × (w : Again hs c rest) × (1 + length w.wire + length rest ≤ length c)
unfolding read_headers read_counted
read_headers-Again c {hs} {rest} h e =
    let (count, c1, one, e1) = after-eq-ok (u8 c) _ e in
    let (r1, is_byte) = u8-Reads c h one in
    elim (Bool-cases (ltb (length c1) (count * 3))) [
      | inl short ↦ absurd (refused (rw short at e1))
      | inr enough ↦
          let (new, is, few, w) = read_loop-Again count [] c1 r1.bytes (rw enough at e1) in
          let again : Again hs c1 rest = rw is w in
          (
            rw is (omega arith),
            record {
              wire = again.wire;
              written = again.written;
              fits = omega (arith, again.fits, r1.size);
              bytes = again.bytes;
            },
            omega (arith, again.fits, r1.size),
          )
    ]
