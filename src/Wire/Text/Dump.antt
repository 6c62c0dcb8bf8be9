-- ===== src/Wire/Text/Dump.antt =====
-- A whole hexdump: its length, and what is read back from it.
use bhttp_1_http_in_binary.Base.{
  ℕ, zero, suc, ◌+◌, ◌*◌, ◌/◌, ◌≤◌, ◌≡◌, refl, sym, ap, ◌∙◌, arith, true, [], ◌∷◌, ◌++◌,
  append_assoc, Bytes, IsByte, codes, All, All-take, All-drop, length, length-append, length-take,
  length-drop, take, drop, drop-append, take-append-drop, ltb,
}
use bhttp_1_http_in_binary.Wire.Text.{
  hex_padded, hex_cells, printed, row_text, rows_from, write_rows,
}
use bhttp_1_http_in_binary.Wire.Text.Rows.{
  length-hex_cells, length-printed, read_cells, after_newline, read_rows, read_dump,
  read_cells-hex_cells,
}

after_newline-printed :
    (row rest : Bytes) → after_newline (printed row ++ (codes "|\n" ++ rest)) ≡ rest
unfolding after_newline printed
after_newline-printed [] rest = refl
after_newline-printed (b ∷ row) rest = ground (arith, after_newline-printed row rest)

-- What is behind the columns of a row.
abbrev row_end : Bytes → Bytes
row_end row = codes " |" ++ (printed row ++ codes "|\n")

row_front :
    (off : ℕ) (row rest : Bytes)
    → drop 16 (row_text off row ++ rest) ≡ hex_cells 16 0 row ++ (row_end row ++ rest)
unfolding row_text hex_padded
row_front off row rest = append_assoc (hex_cells 16 0 row) (row_end row) rest

row_columns : (row : Bytes) → length row ≤ 16 → length (hex_cells 16 0 row) ≡ 49
row_columns row h = length-hex_cells 16 0 row h refl

drop-drop : (m n : ℕ) (t : Bytes) → drop n (drop m t) ≡ drop (m + n) t
drop-drop zero n t = let e : 0 + n ≡ n = omega arith in rw e refl
drop-drop (suc m) zero [] = let e : suc m + 0 ≡ suc m = omega arith in rw e refl
drop-drop (suc m) (suc n) [] = let e : suc m + suc n ≡ suc (m + suc n) = omega arith in rw e refl
drop-drop (suc m) n (c ∷ t) =
    let e : suc m + n ≡ suc (m + n) = omega arith in rw e (drop-drop m n t)

pub row_skipped :
    (off : ℕ) (row rest : Bytes)
    → length row ≤ 16
    → after_newline (drop 67 (row_text off row ++ rest)) ≡ rest
row_skipped off row rest h =
    let tail = printed row ++ (codes "|\n" ++ rest) in
    let behind : drop 51 (hex_cells 16 0 row ++ (row_end row ++ rest)) ≡ tail =
      sym (drop-drop 49 2 (hex_cells 16 0 row ++ (row_end row ++ rest)))
      ∙ ap (drop 2) (drop-append 49 (hex_cells 16 0 row) (row_end row ++ rest) (row_columns row h))
      ∙ append_assoc (printed row) (codes "|\n") rest in
    ap after_newline (
      sym (drop-drop 16 51 (row_text off row ++ rest))
      ∙ ap (drop 51) (row_front off row rest)
      ∙ behind)
    ∙ after_newline-printed row rest

pub length-row_text :
    (off : ℕ) (row : Bytes) → length row ≤ 16 → length (row_text off row) ≡ 69 + length row
unfolding row_text hex_padded
length-row_text off row h = omega (
  arith,
  row_columns row h,
  length-printed row,
  length-append (hex_cells 16 0 row) (row_end row),
  length-append (printed row) (codes "|\n"),
)

rows_step :
    (fuel off c : ℕ) (b : Bytes)
    → rows_from (suc fuel) off (c ∷ b)
      ≡ row_text off (c ∷ take 15 b) ++ rows_from fuel (off + 16) (drop 15 b)
unfolding rows_from
rows_step fuel off c b =
    let some_left : ltb 0 (length (c ∷ b)) ≡ true = ground arith in rw some_left refl

length-rows_from :
    (fuel off : ℕ) (b : Bytes)
    → length b ≤ fuel
    → length (rows_from fuel off b) ≡ 69 * ((length b + 15) / 16) + length b
length-rows_from zero off [] h = unfold rows_from in refl
length-rows_from zero off (c ∷ b) h = absurd (omega arith)
length-rows_from (suc fuel) off [] h = unfold rows_from in refl
length-rows_from (suc fuel) off (c ∷ b) h =
    let ih = length-rows_from fuel (off + 16) (drop 15 b) (omega (arith, length-drop 15 b)) in
    let row = c ∷ take 15 b in
    omega (
      arith,
      ih,
      ap length (rows_step fuel off c b),
      length-append (row_text off row) (rows_from fuel (off + 16) (drop 15 b)),
      length-row_text off row (omega (arith, length-take 15 b)),
      length-take 15 b,
      length-drop 15 b,
    )

-- A hexdump takes 69 characters for each row that is begun, and one for each byte.
pub length-write_rows : (b : Bytes) → length (write_rows b) ≡ 69 * ((length b + 15) / 16) + length b
unfolding write_rows
length-write_rows b = length-rows_from (length b) 0 b (omega arith)

read_rows_step :
    (more off : ℕ) (row rest : Bytes)
    → length row ≤ 16
    → All IsByte row
    → read_rows (suc more) (row_text off row ++ rest) ≡ row ++ read_rows more rest
unfolding read_rows
read_rows_step more off row rest h bytes =
    let some_left : ltb 0 (length (row_text off row ++ rest)) ≡ true =
      ground (arith, length-append (row_text off row) rest, length-row_text off row h) in
    let columns : read_cells 16 0 (drop 16 (row_text off row ++ rest)) ≡ row =
      ap (read_cells 16 0) (row_front off row rest)
      ∙ read_cells-hex_cells 16 0 row (row_end row ++ rest) h bytes in
    rw (some_left, columns, row_skipped off row rest h) refl

read_rows-rows_from :
    (fuel off more : ℕ) (b : Bytes)
    → length b ≤ fuel
    → length b ≤ more
    → All IsByte b
    → read_rows more (rows_from fuel off b) ≡ b
read_rows-rows_from zero off zero [] h m bytes = unfold read_rows rows_from in refl
read_rows-rows_from zero off (suc more) [] h m bytes = unfold read_rows rows_from in refl
read_rows-rows_from (suc fuel) off zero [] h m bytes = unfold read_rows rows_from in refl
read_rows-rows_from (suc fuel) off (suc more) [] h m bytes = unfold read_rows rows_from in refl
read_rows-rows_from zero off more (c ∷ b) h m bytes = absurd (omega arith)
read_rows-rows_from (suc fuel) off zero (c ∷ b) h m bytes = absurd (omega arith)
read_rows-rows_from (suc fuel) off (suc more) (c ∷ b) h m bytes =
    let row = c ∷ take 15 b in
    let rest = rows_from fuel (off + 16) (drop 15 b) in
    let fits = length-drop 15 b in
    ap (read_rows (suc more)) (rows_step fuel off c b)
    ∙ read_rows_step more off row rest (omega (arith, length-take 15 b))
        (bytes.0, All-take IsByte 15 b bytes.1)
    ∙ ap (λ (x : Bytes). row ++ x)
        (read_rows-rows_from fuel (off + 16) more (drop 15 b) (omega arith) (omega arith)
          (All-drop IsByte 15 b bytes.1))
    ∙ ap (◌∷◌ c) (take-append-drop 15 b)

-- What is read back from a hexdump is what was dumped.
pub read_dump-write_rows : (b : Bytes) → All IsByte b → read_dump (write_rows b) ≡ b
unfolding read_dump write_rows
read_dump-write_rows b bytes =
    let long = length-write_rows b in
    read_rows-rows_from (length b) 0 (length (write_rows b)) b (omega arith) (omega arith) bytes
