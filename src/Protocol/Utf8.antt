-- ===== src/Protocol/Utf8.antt =====
-- `utf8.Valid` of the standard library, by its table of leading bytes.
use bhttp_1_http_in_binary.Base.{
  ℕ, zero, suc, ◌≡◌, refl, Bool, true, false, ◌&&◌, Option, none, some, Bytes, [], ◌∷◌, ltb, leb,
  if◌then◌else◌,
}

abbrev within : ℕ → ℕ → ℕ → Bool
within lo hi b = leb lo b && leb b hi

-- After a leading byte: how many bytes continue, and the range of the first of them.
unfoldable pub lead : ℕ → Option (ℕ × ℕ × ℕ)
lead b =
    if ltb b 0x80
    then some (0, 0, 0)
    else if within 0xc2 0xdf b
    then some (1, 0x80, 0xbf)
    else if within 0xe0 0xe0 b
    then some (2, 0xa0, 0xbf)
    else if within 0xed 0xed b
    then some (2, 0x80, 0x9f)
    else if within 0xe1 0xef b
    then some (2, 0x80, 0xbf)
    else if within 0xf0 0xf0 b
    then some (3, 0x90, 0xbf)
    else if within 0xf1 0xf3 b
    then some (3, 0x80, 0xbf)
    else if within 0xf4 0xf4 b
    then some (3, 0x80, 0x8f)
    else none

unfoldable pub utf8_from : ℕ → ℕ → ℕ → Bytes → Bool
unfolding lead
utf8_from zero lo hi [] = true
utf8_from (suc k) lo hi [] = false
utf8_from zero lo hi (b ∷ bs) = elim (lead b) [
  | none ↦ false
  | some (k, lo', hi') ↦ utf8_from k lo' hi' bs
]
utf8_from (suc k) lo hi (b ∷ bs) =
    let rest = utf8_from k 0x80 0xbf bs in if within lo hi b then rest else false

unfoldable pub valid_utf8 : Bytes → Bool
unfolding utf8_from
valid_utf8 = utf8_from 0 0 0

valid_utf8_runs :
    (valid_utf8 (b'/' ∷ 0xc3 ∷ 0xaf ∷ []) ≡ true)
    × (valid_utf8 (0xc0 ∷ 0xaf ∷ []) ≡ false)
    × (valid_utf8 (0xed ∷ 0xa0 ∷ 0x80 ∷ []) ≡ false)
    × (valid_utf8 (0xf0 ∷ 0x9f ∷ 0x98 ∷ []) ≡ false)
unfolding valid_utf8
valid_utf8_runs = (refl, refl, refl, refl)
