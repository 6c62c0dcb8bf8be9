-- ===== src/Wire/Tap/Ledger.antt =====
-- What a tap has been given, and what it has shown: the frames of each direction, and their numbers.
use bhttp_1_http_in_binary.Base.{
  ℕ, zero, suc, ◌+◌, ◌≡◌, refl, sym, ap, arith, List, [], ◌∷◌, ◌++◌, append_assoc, Bytes, length,
}
use bhttp_1_http_in_binary.Wire.{Shown, whole_frame, raw_bytes}
use bhttp_1_http_in_binary.Wire.Fronts.{numbered}
use bhttp_1_http_in_binary.Wire.Text.{Arrow, sent, received}
use bhttp_1_http_in_binary.Wire.Tap.{Tap, marked, feed_tap}

-- Bytes that have passed, in the order in which the tap was given them.
abbrev pub Passed : Type 0
Passed = List (Arrow × Bytes)

abbrev pub feed_passed : Passed → Tap → Tap
feed_passed [] t = t
feed_passed ((a, b) ∷ ps) t = feed_passed ps (feed_tap a b t)

-- Those of one direction.
abbrev pub passed : Arrow → Passed → Bytes
passed a [] = []
passed sent ((sent, b) ∷ ps) = b ++ passed sent ps
passed sent ((received, b) ∷ ps) = passed sent ps
passed received ((sent, b) ∷ ps) = passed received ps
passed received ((received, b) ∷ ps) = b ++ passed received ps

-- The frames shown of one direction. Other bytes that are shown count as a frame of none.
abbrev pub bytes_shown : Shown → List Bytes
bytes_shown (whole_frame n b) = b ∷ []
bytes_shown (raw_bytes why b) = [] ∷ []

abbrev pub frames_shown : Arrow → List (Arrow × Shown) → List Bytes
frames_shown a [] = []
frames_shown sent ((sent, s) ∷ ss) = bytes_shown s ++ frames_shown sent ss
frames_shown sent ((received, s) ∷ ss) = frames_shown sent ss
frames_shown received ((sent, s) ∷ ss) = frames_shown received ss
frames_shown received ((received, s) ∷ ss) = bytes_shown s ++ frames_shown received ss

-- The numbers that the frames are shown with.
abbrev pub numbers_shown : List (Arrow × Shown) → List ℕ
numbers_shown [] = []
numbers_shown ((a, whole_frame n b) ∷ ss) = n ∷ numbers_shown ss
numbers_shown ((a, raw_bytes why b) ∷ ss) = numbers_shown ss

abbrev pub count_from : ℕ → ℕ → List ℕ
count_from n zero = []
count_from n (suc k) = (n + 1) ∷ count_from (n + 1) k

pub frames_shown-append :
    (a : Arrow) (xs ys : List (Arrow × Shown))
    → frames_shown a (xs ++ ys) ≡ frames_shown a xs ++ frames_shown a ys
frames_shown-append a [] ys = refl
frames_shown-append sent ((sent, s) ∷ xs) ys =
    rw (frames_shown-append sent xs ys) (sym (append_assoc (bytes_shown s) _ _))
frames_shown-append sent ((received, s) ∷ xs) ys = frames_shown-append sent xs ys
frames_shown-append received ((sent, s) ∷ xs) ys = frames_shown-append received xs ys
frames_shown-append received ((received, s) ∷ xs) ys =
    rw (frames_shown-append received xs ys) (sym (append_assoc (bytes_shown s) _ _))

pub numbers_shown-append :
    (xs ys : List (Arrow × Shown)) → numbers_shown (xs ++ ys) ≡ numbers_shown xs ++ numbers_shown ys
numbers_shown-append [] ys = refl
numbers_shown-append ((a, whole_frame n b) ∷ xs) ys = rw (numbers_shown-append xs ys) refl
numbers_shown-append ((a, raw_bytes why b) ∷ xs) ys = numbers_shown-append xs ys

pub count_from-add : (n j k : ℕ) → count_from n j ++ count_from (n + j) k ≡ count_from n (j + k)
count_from-add n zero k =
    let e : n + 0 ≡ n = omega arith in let z : 0 + k ≡ k = omega arith in rw (e, z) refl
count_from-add n (suc j) k =
    let e : n + suc j ≡ n + 1 + j = omega arith in
    let s : suc j + k ≡ suc (j + k) = omega arith in
    rw (e, s) (ap (◌∷◌ (n + 1)) (count_from-add (n + 1) j k))

-- What is shown of frames in one direction.
pub frames_marked :
    (a : Arrow) (n : ℕ) (bs : List Bytes) → frames_shown a (marked a (numbered n bs)) ≡ bs
frames_marked sent n [] = refl
frames_marked received n [] = refl
frames_marked sent n (b ∷ bs) = ap (◌∷◌ b) (frames_marked sent (n + 1) bs)
frames_marked received n (b ∷ bs) = ap (◌∷◌ b) (frames_marked received (n + 1) bs)

pub frames_marked_other :
    (n : ℕ) (bs : List Bytes)
    → (frames_shown sent (marked received (numbered n bs)) ≡ [])
      × (frames_shown received (marked sent (numbered n bs)) ≡ [])
frames_marked_other n [] = (refl, refl)
frames_marked_other n (b ∷ bs) = frames_marked_other (n + 1) bs

pub numbers_marked :
    (a : Arrow) (n : ℕ) (bs : List Bytes)
    → numbers_shown (marked a (numbered n bs)) ≡ count_from n (length bs)
numbers_marked a n [] = refl
numbers_marked a n (b ∷ bs) = ap (◌∷◌ (n + 1)) (numbers_marked a (n + 1) bs)
