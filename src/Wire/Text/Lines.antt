-- ===== src/Wire/Text/Lines.antt =====
-- The first line of a frame's text is one line.
use bhttp_1_http_in_binary.Base.{
  Bool, ℕ, zero, suc, ◌/◌, ◌%◌, ◌≡◌, refl, ◌≢◌, arith, true, false, List, [], ◌∷◌, ◌++◌, Bytes,
  codes, All, All-append, length, drop, get_or, be_u32, ◌==◌, if◌then◌else◌, bit_and,
}
use bhttp_1_http_in_binary.Base.Decimal.{format_int, format_int-IsDigit, IsDigit}
use bhttp_1_http_in_binary.Frame.{header_size, flag_end_stream}
use bhttp_1_http_in_binary.Wire.Text.{
  Arrow, sent, received, arrow_text, hex_digit, hex_padded, type_name, join_with, flag_names,
  frame_line,
}
use bhttp_1_http_in_binary.Wire.Text.Rows.{after_newline}

-- No line ends here.
abbrev pub IsInLine : ℕ → Type 0
IsInLine c = c ≢ b'\n'

abbrev pub OneLine : Bytes → Type 0
OneLine = All IsInLine

line_append : (x y : Bytes) → OneLine x → OneLine y → OneLine (x ++ y)
line_append = All-append IsInLine

line_if : (t : Bool) (x y : Bytes) → OneLine x → OneLine y → OneLine (if t then x else y)
line_if true x y hx hy = hx
line_if false x y hx hy = hy

pub after_newline-append :
    (s rest : Bytes) → OneLine s → after_newline (s ++ (codes "\n" ++ rest)) ≡ rest
unfolding after_newline
after_newline-append [] rest h = refl
after_newline-append (c ∷ s) rest h = ground (arith, after_newline-append s rest h.1)

digits-OneLine : (s : Bytes) → All IsDigit s → OneLine s
digits-OneLine [] h = tt
digits-OneLine (c ∷ s) h = (omega (arith, h.0), digits-OneLine s h.1)

format_int-OneLine : (n : ℕ) → OneLine (format_int n)
format_int-OneLine n = digits-OneLine (format_int n) (format_int-IsDigit n)

hex_digit-IsInLine : (n : ℕ) → IsInLine (hex_digit n)
unfolding hex_digit
hex_digit-IsInLine n = ground arith

hex_padded-OneLine : (w n : ℕ) → OneLine (hex_padded w n)
unfolding hex_padded
hex_padded-OneLine zero n = tt
hex_padded-OneLine (suc w) n =
    All-append IsInLine (hex_padded w (n / 16)) (hex_digit (n % 16) ∷ [])
      (hex_padded-OneLine w (n / 16)) (hex_digit-IsInLine (n % 16), tt)

type_name-OneLine : (t : ℕ) → OneLine (type_name t)
unfolding type_name
type_name-OneLine t =
    let number = hex_padded 2 t ++ codes ")" in
    let other : OneLine (codes "unknown(0x" ++ number) =
      line_append (codes "unknown(0x") number (omega arith)
        (line_append (hex_padded 2 t) (codes ")") (hex_padded-OneLine 2 t) (omega arith)) in
    ground arith

arrow_text-OneLine : (a : Arrow) → OneLine (arrow_text a)
arrow_text-OneLine sent = omega arith
arrow_text-OneLine received = omega arith

join_bar-OneLine : (ss : List Bytes) → All OneLine ss → OneLine (join_with (codes "|") ss)
unfolding join_with
join_bar-OneLine [] h = tt
join_bar-OneLine (s ∷ []) h = h.0
join_bar-OneLine (s ∷ t ∷ ss) h = line_append s (codes "|" ++ join_with (codes "|") (t ∷ ss)) h.0 (
    line_append (codes "|") (join_with (codes "|") (t ∷ ss)) (omega arith)
      (join_bar-OneLine (t ∷ ss) h.1))

one_or_none : (t : Bool) (s : Bytes) → OneLine s → All OneLine (if t then [] else s ∷ [])
one_or_none true s h = tt
one_or_none false s h = (h, tt)

flag_names-OneLine : (flags : ℕ) → OneLine (flag_names flags)
unfolding flag_names
flag_names-OneLine flags =
    let rest = bit_and flags 0xfe in
    let shown : OneLine (codes "0x" ++ hex_padded 2 rest) =
      line_append (codes "0x") (hex_padded 2 rest) (omega arith) (hex_padded-OneLine 2 rest) in
    let end_stream =
      one_or_none (bit_and flags flag_end_stream == 0) (codes "END_STREAM") (omega arith) in
    let others = one_or_none (rest == 0) (codes "0x" ++ hex_padded 2 rest) shown in
    line_if _ (codes "none") _ (omega arith)
      (join_bar-OneLine _ (All-append OneLine _ _ end_stream others))

pub frame_line-OneLine : (a : Arrow) (n : ℕ) (b : Bytes) → OneLine (frame_line a n b)
unfolding frame_line
frame_line-OneLine a n b =
    let payload = drop header_size b in
    line_append _ _ (arrow_text-OneLine a) (
      line_append (codes " frame ") _ (omega arith) (
        line_append _ _ (format_int-OneLine n) (
          line_append (codes "  ") _ (omega arith) (
            line_append _ _ (type_name-OneLine (get_or b 4 0)) (
              line_append (codes "  stream=") _ (omega arith) (
                line_append _ _ (format_int-OneLine (be_u32 (drop 8 b))) (
                  line_append (codes "  flags=") _ (omega arith) (
                    line_append _ _ (flag_names-OneLine (get_or b 5 0)) (
                      line_append (codes "  length=") _ (omega arith)
                        (format_int-OneLine (length payload)))))))))))
