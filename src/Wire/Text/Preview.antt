-- ===== src/Wire/Text/Preview.antt =====
-- What is printed of bytes that form no frame has a bound.
use bhttp_1_http_in_binary.Base.{
  ℕ, ◌+◌, ◌≤◌, ◌<◌, ◌^◌, ◌-◌, ◌≡◌, arith, inl, inr, Bool-cases, [], ◌∷◌, ◌++◌, Bytes, IsByte, All,
  be_u32, codes, length, length-append, length-take, take, ltb,
}
use bhttp_1_http_in_binary.Base.Decimal.{format_int, length-format_int}
use bhttp_1_http_in_binary.Wire.{Why, behind_unreadable, unreadable, incomplete_at_end}
use bhttp_1_http_in_binary.Wire.Text.{
  Arrow, sent, received, arrow_text, raw_preview, preview, hidden_text, write_rows, why_text,
  raw_text,
}
use bhttp_1_http_in_binary.Wire.Text.Dump.{length-write_rows}

length-arrow_text : (a : Arrow) → length (arrow_text a) ≡ 3
length-arrow_text sent = omega arith
length-arrow_text received = omega arith

be_u32-lt : (b : Bytes) → All IsByte b → be_u32 b < 2 ^ 32
unfolding be_u32
be_u32-lt [] h = omega arith
be_u32-lt (x ∷ []) h = omega arith
be_u32-lt (x ∷ y ∷ []) h = omega arith
be_u32-lt (x ∷ y ∷ z ∷ []) h = omega arith
be_u32-lt (x ∷ y ∷ z ∷ w ∷ b) h = omega arith

length-why_text : (why : Why) (b : Bytes) → All IsByte b → length (why_text why b) ≤ 63
unfolding why_text
length-why_text behind_unreadable b h = omega arith
length-why_text incomplete_at_end b h = omega arith
length-why_text unreadable b h =
    let n = be_u32 b in
    omega (
      arith,
      length-append (format_int n) (codes " bytes)"),
      length-format_int n (omega (arith, be_u32-lt b h)),
    )

-- What stands in front of the rows.
length-raw_front :
    (a : Arrow) (why : Why) (b rest : Bytes)
    → All IsByte b
    → length b < 2 ^ 63
    → length (
        arrow_text a
        ++ (codes " "
            ++ (why_text why b
                ++ (codes " (" ++ (format_int (length b) ++ (codes " bytes)\n" ++ rest))))))
      ≤ 96 + length rest
length-raw_front a why b rest h fits =
    let size = format_int (length b) in
    let behind = codes " (" ++ (size ++ (codes " bytes)\n" ++ rest)) in
    omega (
      arith,
      length-arrow_text a,
      length-why_text why b h,
      length-format_int (length b) fits,
      length-append (arrow_text a) (codes " " ++ (why_text why b ++ behind)),
      length-append (why_text why b) behind,
      length-append size (codes " bytes)\n" ++ rest),
    )

take_short : (n : ℕ) (b : Bytes) → length (take n b) ≤ n
take_short n b = omega (arith, length-take n b)

length-preview : (b : Bytes) → length (preview b) ≤ 256
unfolding preview
length-preview b = elim (Bool-cases (ltb raw_preview (length b))) [
  | inl long ↦ rw long (take_short raw_preview b)
  | inr short ↦ rw short (ground arith)
]

length-hidden_text : (shown b : Bytes) → length b < 2 ^ 63 → length (hidden_text shown b) ≤ 51
unfolding hidden_text
length-hidden_text shown b fits =
    let n = length b - length shown in
    ground (
      arith,
      length-append (format_int n) (codes " more bytes not shown\n"),
      length-format_int n (omega arith),
    )

-- However many bytes there are that form no frame, below 2^63, what one call prints of them takes
-- at most 1507 characters.
pub length-raw_text :
    (arrow : Arrow) (why : Why) (b : Bytes)
    → All IsByte b
    → length b < 2 ^ 63
    → length (raw_text arrow why b) ≤ 1507
unfolding raw_text
length-raw_text arrow why b h fits =
    let hidden = hidden_text (preview b) b in
    omega (
      arith,
      length-raw_front arrow why b (write_rows (preview b) ++ hidden) h fits,
      length-append (write_rows (preview b)) hidden,
      length-write_rows (preview b),
      length-preview b,
      length-hidden_text (preview b) b fits,
    )
