-- ===== src/Wire/Text/Rows.antt =====
-- The rows of a hexdump: how long they are, and that they show every byte.
use bhttp_1_http_in_binary.Base.{
  ℕ, zero, suc, ◌+◌, ◌-◌, ◌*◌, ◌/◌, ◌%◌, ◌≤◌, ◌<◌, ◌≡◌, refl, ap, ◌∙◌, inl, inr, arith, false,
  Bool-cases, [], ◌∷◌, ◌++◌, append_assoc, Bytes, codes, IsByte, All, length, length-append, drop,
  get_or, ltb, ◌==◌, if◌then◌else◌,
}
use bhttp_1_http_in_binary.Wire.Text.{hex_digit, hex_padded, gap, hex_cells, printed}

pub length-hex_padded : (w n : ℕ) → length (hex_padded w n) ≡ w
unfolding hex_padded
length-hex_padded zero n = refl
length-hex_padded (suc w) n = omega (
  arith,
  length-hex_padded w (n / 16),
  length-append (hex_padded w (n / 16)) (hex_digit (n % 16) ∷ []),
)

pub length-hex_cells :
    (k i : ℕ) (row : Bytes)
    → length row ≤ k
    → i + k ≡ 16
    → length (hex_cells k i row) ≡ 3 * k + (if ltb 8 i then 0 else if k == 0 then 0 else 1)
unfolding hex_cells hex_padded gap
length-hex_cells zero i row h e = ground arith
length-hex_cells (suc k) i [] h e = ground (arith, length-hex_cells k (suc i) [])
length-hex_cells (suc k) i (b ∷ row) h e = ground (arith, length-hex_cells k (suc i) row)

pub length-printed : (row : Bytes) → length (printed row) ≡ length row
unfolding printed
length-printed [] = refl
length-printed (b ∷ row) = omega (arith, length-printed row)

-- The digit that a character stands for.
abbrev unhex : ℕ → ℕ
unhex d = if ltb d b'A' then d - b'0' else 10 + (d - b'A')

-- Two digits.
abbrev pub read_byte : Bytes → ℕ
read_byte (d ∷ e ∷ _) = unhex d * 16 + unhex e
read_byte _ = 0

abbrev skip_gap : ℕ → Bytes → Bytes
skip_gap i t = if i == 8 then drop 1 t else t

-- A hexdump that is read back: the columns of a row, up to one that is blank.
unfoldable pub read_cells : ℕ → ℕ → Bytes → Bytes
read_cells zero i t = []
read_cells (suc k) i t =
    let s = skip_gap i t in
    let rest = read_cells k (suc i) (drop 3 s) in
    if get_or s 0 b' ' == b' ' then [] else read_byte s ∷ rest

-- What is behind the end of the line.
unfoldable pub after_newline : Bytes → Bytes
after_newline [] = []
after_newline (c ∷ t) = let rest = after_newline t in if c == b'\n' then t else rest

-- The rows one behind the other. A row has 16 characters, its columns, and what is printable from
-- character 67 on.
unfoldable pub read_rows : ℕ → Bytes → Bytes
unfolding read_cells after_newline
read_rows zero t = []
read_rows (suc fuel) t =
    let rest = read_rows fuel (after_newline (drop 67 t)) in
    if ltb 0 (length t) then read_cells 16 0 (drop 16 t) ++ rest else []

unfoldable pub read_dump : Bytes → Bytes
unfolding read_rows
read_dump t = read_rows (length t) t

hex_digit-ge : (n : ℕ) → b'0' ≤ hex_digit n
unfolding hex_digit
hex_digit-ge n = ground arith

unhex-hex_digit : (n : ℕ) → n < 16 → unhex (hex_digit n) ≡ n
unfolding hex_digit
unhex-hex_digit n h = ground arith

pub read_byte-hex_padded : (b : ℕ) (t : Bytes) → IsByte b → read_byte (hex_padded 2 b ++ t) ≡ b
unfolding hex_padded
read_byte-hex_padded b t h =
    omega
      (arith, unhex-hex_digit (b / 16 % 16) (omega arith), unhex-hex_digit (b % 16) (omega arith))

skip_gap-gap : (i : ℕ) (t : Bytes) → skip_gap i (gap i ++ t) ≡ t
unfolding gap
skip_gap-gap i t = elim (Bool-cases (i == 8)) [
  | inl here ↦ rw here refl
  | inr other ↦ rw other refl
]

read_column :
    (k i b : ℕ) (t : Bytes)
    → IsByte b
    → read_cells (suc k) i (gap i ++ (hex_padded 2 b ++ (b' ' ∷ t))) ≡ b ∷ read_cells k (suc i) t
unfolding read_cells
read_column k i b t h =
    let is = read_byte-hex_padded b (b' ' ∷ t) h in
    let shown : (get_or (hex_padded 2 b ++ (b' ' ∷ t)) 0 b' ' == b' ') ≡ false =
      unfold hex_padded in ground (arith, hex_digit-ge (b / 16 % 16)) in
    let three : drop 3 (hex_padded 2 b ++ (b' ' ∷ t)) ≡ t = unfold hex_padded in refl in
    rw (skip_gap-gap i (hex_padded 2 b ++ (b' ' ∷ t)), shown, three, is) refl

pub read_cells-hex_cells :
    (k i : ℕ) (row rest : Bytes)
    → length row ≤ k
    → All IsByte row
    → read_cells k i (hex_cells k i row ++ rest) ≡ row
unfolding hex_cells
read_cells-hex_cells zero i [] rest h bytes = unfold read_cells in refl
read_cells-hex_cells zero i (b ∷ row) rest h bytes = absurd (omega arith)
read_cells-hex_cells (suc k) i [] rest h bytes =
    let blank = codes "   " ++ (hex_cells k (suc i) [] ++ rest) in
    unfold read_cells in
    rw (append_assoc (gap i) (codes "   " ++ hex_cells k (suc i) []) rest, skip_gap-gap i blank)
      refl
read_cells-hex_cells (suc k) i (b ∷ row) rest h bytes =
    let ih = read_cells-hex_cells k (suc i) row rest (omega arith) bytes.1 in
    rw
      (
        append_assoc (gap i) (hex_padded 2 b ++ (b' ' ∷ hex_cells k (suc i) row)) rest,
        append_assoc (hex_padded 2 b) (b' ' ∷ hex_cells k (suc i) row) rest,
      )
      (read_column k i b (hex_cells k (suc i) row ++ rest) bytes.0 ∙ ap (◌∷◌ b) ih)
