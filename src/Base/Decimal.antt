-- ===== src/Base/Decimal.antt =====
-- strconv.FormatInt in base 10 for a size, and strconv.ParseInt on text that is all digits.
use bhttp_1_http_in_binary.Base.{
  Bool, ◌&&◌, leb, ◌↔◌, refl, Bool-cases, ap, inl, inr, All, length, true, ◌∙◌, ℕ, zero, suc, ◌+◌,
  ◌-◌, ◌*◌, ◌/◌, ◌%◌, ◌^◌, ◌≤◌, ◌<◌, ◌≡◌, arith, [], ◌∷◌, Bytes, ltb, if◌then◌else◌,
}

-- The digits go in front of those that are there.
unfoldable pub format_loop : ℕ → ℕ → Bytes → Bytes
format_loop zero n digits = digits
format_loop (suc fuel) n digits =
    let next = (b'0' + n % 10) ∷ digits in
    let rest = format_loop fuel (n / 10) next in if ltb n 10 then next else rest

unfoldable pub format_int : ℕ → Bytes
unfolding format_loop
format_int n = format_loop (suc n) n []

unfoldable pub digits_value : ℕ → Bytes → ℕ
digits_value acc [] = acc
digits_value acc (d ∷ ds) = digits_value (acc * 10 + (d - b'0')) ds

-- The digits that are put in front carry the number on.
format_loop-value :
    (fuel n : ℕ) (ds : Bytes)
    → n < fuel
    → digits_value 0 (format_loop fuel n ds) ≡ digits_value n ds
unfolding format_loop digits_value
format_loop-value zero n ds h = absurd (omega arith)
format_loop-value (suc fuel) n ds h = elim (Bool-cases (ltb n 10)) [
  | inl small ↦
      let e : 0 + (b'0' + n % 10 - b'0') ≡ n = ground arith in
      rw small (ap (λ (x : ℕ). digits_value x ds) e)
  | inr large ↦
      let e : n / 10 * 10 + (b'0' + n % 10 - b'0') ≡ n = omega arith in
      rw large
        (format_loop-value fuel (n / 10) _ (ground arith) ∙ ap (λ (x : ℕ). digits_value x ds) e)
]

-- The text of a number stands for that number.
pub digits_value-format_int : (n : ℕ) → digits_value 0 (format_int n) ≡ n
unfolding format_int digits_value
digits_value-format_int n = format_loop-value (suc n) n [] (omega arith)

abbrev pub IsDigit : ℕ → Type 0
IsDigit d = (b'0' ≤ d) × (d ≤ b'9')

format_loop-IsDigit :
    (fuel n : ℕ) (ds : Bytes) → All IsDigit ds → All IsDigit (format_loop fuel n ds)
unfolding format_loop
format_loop-IsDigit zero n ds h = h
format_loop-IsDigit (suc fuel) n ds h = elim (Bool-cases (ltb n 10)) [
  | inl small ↦ rw small (omega arith, h)
  | inr large ↦ rw large (format_loop-IsDigit fuel (n / 10) _ (omega arith, h))
]

pub format_int-IsDigit : (n : ℕ) → All IsDigit (format_int n)
unfolding format_int
format_int-IsDigit n = format_loop-IsDigit (suc n) n [] tt

length-format_loop :
    (k fuel n : ℕ) (ds : Bytes)
    → n < 10 ^ suc k
    → length (format_loop fuel n ds) ≤ suc k + length ds
unfolding format_loop
length-format_loop k zero n ds h = omega arith
length-format_loop zero (suc fuel) n ds h =
    let small : ltb n 10 ≡ true = ground arith in rw small (omega arith)
length-format_loop (suc k) (suc fuel) n ds h = elim (Bool-cases (ltb n 10)) [
  | inl small ↦ rw small (omega arith)
  | inr large ↦
      rw large
        (omega (arith, length-format_loop k fuel (n / 10) ((b'0' + n % 10) ∷ ds) (omega arith)))
]

-- A size below 2 ^ 63 takes 19 digits at most.
pub length-format_int : (n : ℕ) → n < 2 ^ 63 → length (format_int n) ≤ 19
unfolding format_int
length-format_int n h = omega (arith, length-format_loop 18 (suc n) n [] (omega arith))

length-format_loop_grows : (fuel n : ℕ) (ds : Bytes) → length ds ≤ length (format_loop fuel n ds)
unfolding format_loop
length-format_loop_grows zero n ds = omega arith
length-format_loop_grows (suc fuel) n ds = elim (Bool-cases (ltb n 10)) [
  | inl small ↦ rw small (omega arith)
  | inr large ↦
      rw large (omega (arith, length-format_loop_grows fuel (n / 10) ((b'0' + n % 10) ∷ ds)))
]

pub format_int_nonempty : (n : ℕ) → 0 < length (format_int n)
unfolding format_int format_loop
format_int_nonempty n = elim (Bool-cases (ltb n 10)) [
  | inl small ↦ rw small (omega arith)
  | inr large ↦ rw large (omega (arith, length-format_loop_grows n (n / 10) ((b'0' + n % 10) ∷ [])))
]

-- Whether a text is digits only.
unfoldable pub all_digits : Bytes → Bool
all_digits [] = true
all_digits (c ∷ cs) = (leb b'0' c && leb c b'9') && all_digits cs

pub all_digits-IsDigit : (ds : Bytes) → All IsDigit ds → all_digits ds ≡ true
unfolding all_digits
all_digits-IsDigit [] h = refl
all_digits-IsDigit (d ∷ ds) (h, hs) = ground (arith, all_digits-IsDigit ds hs)

pub all_digits_iff : (v : Bytes) → (all_digits v ≡ true) ↔ All IsDigit v
unfolding all_digits
all_digits_iff [] = ground arith
all_digits_iff (d ∷ ds) = ground (arith, all_digits_iff ds)
