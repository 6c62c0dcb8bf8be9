-- ===== src/Wire/Text/ReadBack.antt =====
-- The text of a frame shows the frame: it can be read back from it.
use bhttp_1_http_in_binary.Base.{
  ℕ, zero, suc, ◌*◌, ◌≡◌, refl, subst, sym, ap, ◌∙◌, arith, true, [], ◌∷◌, ◌++◌, append_assoc,
  Bytes, IsByte, codes, All, All-take, All-drop, length, length-append, length-take, take, drop,
  drop-append, take-append-drop, ltb, if◌then◌else◌,
}
use bhttp_1_http_in_binary.Frame.{header_size}
use bhttp_1_http_in_binary.Wire.Fronts.{IsWire}
use bhttp_1_http_in_binary.Wire.Text.{
  Arrow, hex_padded, spaced_hex, write_rows, frame_line, frame_text,
}
use bhttp_1_http_in_binary.Wire.Text.Rows.{
  read_byte, read_byte-hex_padded, after_newline, read_dump, read_rows,
}
use bhttp_1_http_in_binary.Wire.Text.Dump.{read_dump-write_rows}
use bhttp_1_http_in_binary.Wire.Text.Lines.{after_newline-append, frame_line-OneLine}

-- Bytes that are shown one behind the other.
unfoldable pub read_spaced : ℕ → Bytes → Bytes
read_spaced zero t = []
read_spaced (suc k) t = read_byte t ∷ read_spaced k (drop 3 t)

-- A frame's text that is read back: the header has 35 characters from character 13 of the second
-- line on, and the rows of the payload have a line above them.
unfoldable pub read_frame_text : Bytes → Bytes
unfolding read_spaced
read_frame_text t =
    let second = after_newline t in
    read_spaced header_size (drop 13 second) ++ read_dump (drop 12 (drop 49 second))

length-spaced_hex : (b : ℕ) (bs : Bytes) → suc (length (spaced_hex (b ∷ bs))) ≡ 3 * length (b ∷ bs)
unfolding spaced_hex hex_padded
length-spaced_hex b [] = refl
length-spaced_hex b (c ∷ bs) = omega (arith, length-spaced_hex c bs)

read_spaced_step :
    (k b : ℕ) (t : Bytes)
    → IsByte b
    → read_spaced (suc k) (hex_padded 2 b ++ (b' ' ∷ t)) ≡ b ∷ read_spaced k t
unfolding read_spaced
read_spaced_step k b t h =
    let three : drop 3 (hex_padded 2 b ++ (b' ' ∷ t)) ≡ t = unfold hex_padded in refl in
    rw (read_byte-hex_padded b (b' ' ∷ t) h, three) refl

read_spaced-spaced_hex :
    (bs rest : Bytes) → All IsByte bs → read_spaced (length bs) (spaced_hex bs ++ rest) ≡ bs
unfolding spaced_hex
read_spaced-spaced_hex [] rest h = unfold read_spaced in refl
read_spaced-spaced_hex (b ∷ []) rest h =
    unfold read_spaced in rw (read_byte-hex_padded b rest h.0) refl
read_spaced-spaced_hex (b ∷ c ∷ bs) rest h =
    let tail = spaced_hex (c ∷ bs) ++ rest in
    let whole : spaced_hex (b ∷ c ∷ bs) ++ rest ≡ hex_padded 2 b ++ (b' ' ∷ tail) =
      append_assoc (hex_padded 2 b) (b' ' ∷ spaced_hex (c ∷ bs)) rest in
    ap (read_spaced (length (b ∷ c ∷ bs))) whole
    ∙ read_spaced_step (length (c ∷ bs)) b tail h.0
    ∙ ap (◌∷◌ b) (read_spaced-spaced_hex (c ∷ bs) rest h.1)

length-header : (b : Bytes) → IsWire b → length (take header_size b) ≡ header_size
length-header b h = omega (arith, length-take header_size b, h.size)

header_shown :
    (hdr rest : Bytes)
    → length hdr ≡ header_size
    → All IsByte hdr
    → read_spaced header_size (spaced_hex hdr ++ rest) ≡ hdr
header_shown hdr rest long bytes =
    subst (λ (n : ℕ). read_spaced n (spaced_hex hdr ++ rest) ≡ hdr) long
      (read_spaced-spaced_hex hdr rest bytes)

header_behind :
    (hdr rest : Bytes)
    → length hdr ≡ header_size
    → drop 36 (spaced_hex hdr ++ (codes "\n" ++ rest)) ≡ rest
header_behind [] rest long = absurd (omega arith)
header_behind (b ∷ bs) rest long =
    let columns = spaced_hex (b ∷ bs) in
    ap (drop 36) (sym (append_assoc columns (codes "\n") rest))
    ∙ drop-append 36 (columns ++ codes "\n") rest
        (omega (arith, length-spaced_hex b bs, length-append columns (codes "\n")))

-- The rows of the payload, and the line above them.
payload_shown :
    (payload : Bytes)
    → All IsByte payload
    → read_dump (
        drop 12
          (if ltb 0 (length payload) then codes "    payload\n" ++ write_rows payload else []))
      ≡ payload
payload_shown [] bytes = unfold read_dump read_rows in refl
payload_shown (b ∷ payload) bytes =
    let some_left : ltb 0 (length (b ∷ payload)) ≡ true = ground arith in
    rw some_left (read_dump-write_rows (b ∷ payload) bytes)

-- The text printed for a frame shows every byte of it: read back by columns it gives the frame.
pub read_frame_text-frame_text :
    (arrow : Arrow) (n : ℕ) (b : Bytes)
    → IsWire b
    → All IsByte b
    → read_frame_text (frame_text arrow n b) ≡ b
unfolding read_frame_text frame_text
read_frame_text-frame_text arrow n b h bytes =
    let hdr = take header_size b in
    let payload = drop header_size b in
    let rows = if ltb 0 (length payload) then codes "    payload\n" ++ write_rows payload else [] in
    let second = codes "    header   " ++ (spaced_hex hdr ++ (codes "\n" ++ rows)) in
    let long = length-header b h in
    let past : after_newline (frame_line arrow n b ++ (codes "\n" ++ second)) ≡ second =
      after_newline-append (frame_line arrow n b) second (frame_line-OneLine arrow n b) in
    let header = header_shown hdr (codes "\n" ++ rows) long (All-take IsByte header_size b bytes) in
    rw (past, header_behind hdr rows long)
      (rw (payload_shown payload (All-drop IsByte header_size b bytes))
        (ap (λ (x : Bytes). x ++ payload) header ∙ take-append-drop header_size b))
