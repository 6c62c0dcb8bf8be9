-- ===== src/Wire/Text.antt =====
-- internal/wire/tap.go: the text that printFrame and printRaw write, from what is kept of it as data.
pub mod Rows
pub mod Dump
pub mod Lines
pub mod ReadBack
pub mod Preview
use bhttp_1_http_in_binary.Base.{
  ℕ, zero, suc, ◌+◌, ◌-◌, ◌/◌, ◌%◌, ◌&&◌, List, [], ◌∷◌, ◌++◌, Bytes, codes, be_u32, ltb, leb, ◌==◌,
  if◌then◌else◌, length, take, drop, get_or, bit_and,
}
use bhttp_1_http_in_binary.Base.Decimal.{format_int}
use bhttp_1_http_in_binary.Frame.{
  header_size, type_request, type_response, type_data, type_error, flag_end_stream,
}
use bhttp_1_http_in_binary.Wire.{
  Why, behind_unreadable, unreadable, incomplete_at_end, Shown, whole_frame, raw_bytes,
}

abbrev pub raw_preview : ℕ
raw_preview = 256

-- The direction of a framer.
pub data Arrow : Type 0 where
  sent received : Arrow

abbrev pub arrow_text : Arrow → Bytes
arrow_text sent = codes "-->"
arrow_text received = codes "<--"

unfoldable pub hex_digit : ℕ → ℕ
hex_digit n = if ltb n 10 then b'0' + n else b'A' + (n - 10)

-- `%02X` and `%08X` of fmt, for a number that has no more digits than that.
unfoldable pub hex_padded : ℕ → ℕ → Bytes
unfolding hex_digit
hex_padded zero n = []
hex_padded (suc w) n = hex_padded w (n / 16) ++ (hex_digit (n % 16) ∷ [])

-- `% X` of fmt.
unfoldable pub spaced_hex : Bytes → Bytes
spaced_hex [] = []
spaced_hex (b ∷ []) = hex_padded 2 b
spaced_hex (b ∷ c ∷ bs) = hex_padded 2 b ++ (b' ' ∷ spaced_hex (c ∷ bs))

unfoldable pub type_name : ℕ → Bytes
type_name t =
    if t == type_request
    then codes "REQUEST"
    else if t == type_response
    then codes "RESPONSE"
    else if t == type_data
    then codes "DATA"
    else if t == type_error
    then codes "ERROR"
    else codes "unknown(0x" ++ (hex_padded 2 t ++ codes ")")

-- strings.Join
unfoldable pub join_with : Bytes → List Bytes → Bytes
join_with sep [] = []
join_with sep (s ∷ []) = s
join_with sep (s ∷ t ∷ ss) = s ++ (sep ++ join_with sep (t ∷ ss))

unfoldable pub flag_names : ℕ → Bytes
unfolding join_with
flag_names flags =
    let end_stream = if bit_and flags flag_end_stream == 0 then [] else codes "END_STREAM" ∷ [] in
    let rest = bit_and flags 0xfe in
    let others = if rest == 0 then [] else (codes "0x" ++ hex_padded 2 rest) ∷ [] in
    if flags == 0 then codes "none" else join_with (codes "|") (end_stream ++ others)

-- The extra space in the middle of a row.
unfoldable pub gap : ℕ → Bytes
gap i = if i == 8 then b' ' ∷ [] else []

-- The loop over the sixteen columns of a row, from column `i` on.
unfoldable pub hex_cells : ℕ → ℕ → Bytes → Bytes
hex_cells zero i row = []
hex_cells (suc k) i [] = gap i ++ (codes "   " ++ hex_cells k (suc i) [])
hex_cells (suc k) i (b ∷ row) = gap i ++ (hex_padded 2 b ++ (b' ' ∷ hex_cells k (suc i) row))

-- What is printed of the bytes as text.
unfoldable pub printed : Bytes → Bytes
printed [] = []
printed (b ∷ row) = (if leb 0x20 b && ltb b 0x7f then b else b'.') ∷ printed row

abbrev pub indent : Bytes
indent = codes "      "

unfoldable pub row_text : ℕ → Bytes → Bytes
row_text off row =
    indent
    ++ (hex_padded 8 off
        ++ (codes "  " ++ (hex_cells 16 0 row ++ (codes " |" ++ (printed row ++ codes "|\n")))))

-- The loop of writeRows. An offset is below the size of a payload, or below rawPreview.
unfoldable pub rows_from : ℕ → ℕ → Bytes → Bytes
rows_from zero off b = []
rows_from (suc fuel) off b =
    let rest = rows_from fuel (off + 16) (drop 16 b) in
    if ltb 0 (length b) then row_text off (take 16 b) ++ rest else []

unfoldable pub write_rows : Bytes → Bytes
unfolding rows_from
write_rows b = rows_from (length b) 0 b

-- The first line of a frame's text, up to its end.
unfoldable pub frame_line : Arrow → ℕ → Bytes → Bytes
frame_line arrow n b =
    arrow_text arrow
    ++ (codes " frame "
        ++ (format_int n
            ++ (codes "  "
                ++ (type_name (get_or b 4 0)
                    ++ (codes "  stream="
                        ++ (format_int (be_u32 (drop 8 b))
                            ++ (codes "  flags="
                                ++ (flag_names (get_or b 5 0)
                                    ++ (codes "  length="
                                        ++ format_int (length (drop header_size b)))))))))))

-- printFrame
unfoldable pub frame_text : Arrow → ℕ → Bytes → Bytes
unfolding frame_line
frame_text arrow n b =
    let hdr = take header_size b in
    let payload = drop header_size b in
    frame_line arrow n b
    ++ (codes "\n"
        ++ (codes "    header   "
            ++ (spaced_hex hdr
                ++ (codes "\n"
                    ++ (if ltb 0 (length payload)
                        then codes "    payload\n" ++ write_rows payload
                        else [])))))

unfoldable pub why_text : Why → Bytes → Bytes
why_text behind_unreadable b = codes "bytes after an unreadable frame"
why_text unreadable b =
    codes "not a valid frame (length field says " ++ (format_int (be_u32 b) ++ codes " bytes)")
why_text incomplete_at_end b = codes "incomplete frame at end of connection"

-- The bytes of printRaw that are printed, and the line about those that are not.
unfoldable pub preview : Bytes → Bytes
preview b = if ltb raw_preview (length b) then take raw_preview b else b

unfoldable pub hidden_text : Bytes → Bytes → Bytes
hidden_text shown b =
    if ltb (length shown) (length b)
    then codes "      ... "
      ++ (format_int (length b - length shown) ++ codes " more bytes not shown\n")
    else []

-- printRaw
unfoldable pub raw_text : Arrow → Why → Bytes → Bytes
unfolding why_text
raw_text arrow why b =
    arrow_text arrow
    ++ (codes " "
        ++ (why_text why b
            ++ (codes " ("
                ++ (format_int (length b)
                    ++ (codes " bytes)\n"
                        ++ (write_rows (preview b) ++ hidden_text (preview b) b))))))

unfoldable pub text_of : Arrow → Shown → Bytes
unfolding frame_text raw_text
text_of arrow (whole_frame n b) = frame_text arrow n b
text_of arrow (raw_bytes why b) = raw_text arrow why b
