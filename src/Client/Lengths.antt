-- ===== src/Client/Lengths.antt =====
-- `checkLength` of internal/client/client.go: every content-length has to agree with what arrived.
use bhttp_1_http_in_binary.Base.{
  ℕ, ◌<◌, ◌≡◌, refl, arith, All, ◌↔◌, ◌≤◌, bytes_eq_iff, Bool-cases, Result-cases, inl, inr, ◌-◌,
  ◌^◌, not, ◌||◌, List, [], ◌∷◌, Bytes, bytes_eq, Result, success, failure, bad_length,
  wrong_length, ltb, ◌==◌, if◌then◌else◌, length,
}
use bhttp_1_http_in_binary.Protocol.Headers.{Header, content_length}
use bhttp_1_http_in_binary.Base.Decimal.{
  all_digits, all_digits_iff, all_digits-IsDigit, digits_value, IsDigit, format_int,
  digits_value-format_int, format_int-IsDigit, length-format_int, format_int_nonempty,
}

-- The largest int64.
abbrev pub max_int64 : ℕ
max_int64 = 2 ^ 63 - 1

-- One value: at most 19 digits, in the range of ParseInt, and equal to what arrived.
unfoldable pub check_value : Bytes → ℕ → Result (Unit {0})
unfolding all_digits digits_value
check_value v got =
    if length v == 0 || ltb 19 (length v)
    then failure bad_length
    else if not (all_digits v)
    then failure bad_length
    else if ltb max_int64 (digits_value 0 v)
    then failure bad_length
    else if not (digits_value 0 v == got)
    then failure wrong_length
    else success tt

unfoldable pub check_length : List Header → ℕ → Result (Unit {0})
unfolding check_value
check_length [] got = success tt
check_length (h ∷ hs) got =
    let rest = check_length hs got in
    if not (bytes_eq h.name content_length)
    then rest
    else elim (check_value h.value got) [ success _ ↦ rest | failure e ↦ failure e ]

-- A value that was written from a size agrees with that size.
pub check_value-format_int : (n : ℕ) → n < 2 ^ 63 → check_value (format_int n) n ≡ success tt
unfolding check_value
check_value-format_int n h =
    let value = digits_value-format_int n in
    let digits = all_digits-IsDigit (format_int n) (format_int-IsDigit n) in
    ground (arith, value, digits, length-format_int n h, format_int_nonempty n)

-- The text of the number of bytes that arrived, with leading zeros at most, in the range of int64.
abbrev pub Agrees : Bytes → ℕ → Type 0
Agrees v got =
    (0 < length v)
    × (length v ≤ 19)
    × All IsDigit v
    × (digits_value 0 v < 2 ^ 63)
    × (digits_value 0 v ≡ got)

check_value→Agrees : (v : Bytes) (got : ℕ) → check_value v got ≡ success tt → Agrees v got
unfolding check_value
check_value→Agrees v got h =
    (ground arith, ground arith, (all_digits_iff v).0 (ground arith), ground arith, ground arith)

Agrees→check_value : (v : Bytes) (got : ℕ) → Agrees v got → check_value v got ≡ success tt
unfolding check_value
Agrees→check_value v got (some_digits, few, digits, range, same) =
    let d = (all_digits_iff v).1 digits in ground (arith, d)

abbrev pub AllAgree : List Header → ℕ → Type 0
AllAgree hs got = All (λ (h : Header). h.name ≡ content_length → Agrees h.value got) hs

check_length→AllAgree :
    (hs : List Header) (got : ℕ) → check_length hs got ≡ success tt → AllAgree hs got
unfolding check_length
check_length→AllAgree [] got e = tt
check_length→AllAgree (h ∷ hs) got e = elim (Bool-cases (bytes_eq h.name content_length)) [
  | inr other ↦ (
    λ same. absurd (ground (arith, bytes_eq_iff h.name content_length)),
    check_length→AllAgree hs got (rw other at e),
  )
  | inl named ↦ elim (Result-cases (check_value h.value got)) [
    | inl (u, good) ↦ (
      λ same. check_value→Agrees h.value got good,
      check_length→AllAgree hs got (rw named at (rw good at e)),
    )
    | inr (x, bad) ↦ absurd (ground arith)
  ]
]

AllAgree→check_length :
    (hs : List Header) (got : ℕ) → AllAgree hs got → check_length hs got ≡ success tt
unfolding check_length
AllAgree→check_length [] got a = refl
AllAgree→check_length (h ∷ hs) got (a, others) =
    elim (Bool-cases (bytes_eq h.name content_length)) [
      | inr other ↦ rw other (AllAgree→check_length hs got others)
      | inl named ↦
          let good =
            Agrees→check_value h.value got (a ((bytes_eq_iff h.name content_length).0 named)) in
          rw named (rw good (AllAgree→check_length hs got others))
    ]

-- A body's length is accepted exactly if every content-length header is a decimal number of 1 to
-- 19 digits, in the range of int64, that is the number of bytes that arrived.
pub check_length_iff :
    (hs : List Header) (got : ℕ) → (check_length hs got ≡ success tt) ↔ AllAgree hs got
check_length_iff hs got = (check_length→AllAgree hs got, AllAgree→check_length hs got)
