-- ===== src/Server/Resolver/Checked.antt =====
-- What `checkPath` lets through: the path that `open` looks up is the document root and plain
-- segments below it.
use bhttp_1_http_in_binary.Base.{
  ℕ, ◌≤◌, ◌≡◌, ◌≢◌, refl, sym, ◌∙◌, arith, true, false, List, [], ◌∷◌, ◌++◌, append-nil,
  append_assoc, Bytes, bytes_eq, bytes_eq_iff, success, All, Bool-cases, inl, inr, ◌==◌, drop,
  replicate, zero, suc,
}
use bhttp_1_http_in_binary.Server.Paths.{
  slash, dot, has_byte, starts_with_slash, has_double_slash, split, extend, FilePath, clean_onto,
  join_path,
}
use bhttp_1_http_in_binary.Server.Resolver.{
  forbidden, any_forbidden, good_segment, good_segments, reserved_device_name, check_path,
  trim_left, trim_right, trim_last,
}

-- A byte that cannot be read as more than a part of a name.
pub record IsPlain (c : ℕ) : Type 0 where
  pub printable : 0x20 ≤ c
  pub no_slash : c ≢ slash
  pub no_backslash : c ≢ b'\\'
  pub no_colon : c ≢ b':'
  pub no_delete : c ≢ 0x7f

-- The name of a file or a directory, and never a step to a parent.
pub record IsName (s : Bytes) : Type 0 where
  pub nonempty : s ≢ []
  pub not_here : s ≢ dot ∷ []
  pub not_up : s ≢ dot ∷ dot ∷ []
  pub plain : All IsPlain s
  pub no_device : reserved_device_name s ≡ false

-- The names that remain when empty segments are dropped.
abbrev nonempty_or : Bytes → FilePath → FilePath
nonempty_or [] p = p
nonempty_or (b ∷ bs) p = (b ∷ bs) ∷ p

abbrev pub names : List Bytes → FilePath
names [] = []
names (s ∷ segs) = nonempty_or s (names segs)

forbidden-IsPlain : (c : ℕ) → forbidden c ≡ false → c ≢ slash → IsPlain c
unfolding forbidden has_byte
forbidden-IsPlain c h differs = record {
  printable = ground arith;
  no_slash = differs;
  no_backslash = λ e. ground arith;
  no_colon = λ e. ground arith;
  no_delete = λ e. ground arith;
}

abbrev Allowed : Bytes → Type 0
Allowed = All (λ c. forbidden c ≡ false)

any_forbidden-Allowed : (bs : Bytes) → any_forbidden bs ≡ false → Allowed bs
unfolding any_forbidden
any_forbidden-Allowed [] h = tt
any_forbidden-Allowed (c ∷ cs) h = (ground arith, any_forbidden-Allowed cs (ground arith))

extend-IsPlain :
    (b : ℕ) (segs : List Bytes)
    → IsPlain b
    → All (All IsPlain) segs
    → All (All IsPlain) (extend b segs)
extend-IsPlain b [] h hs = ((h, tt), tt)
extend-IsPlain b (s ∷ segs) h (p, ps) = ((h, p), ps)

-- A segment is plain: it has no slash, and its bytes are allowed.
split-IsPlain : (bs : Bytes) → Allowed bs → All (All IsPlain) (split bs)
unfolding split
split-IsPlain [] h = (tt, tt)
split-IsPlain (b ∷ bs) (h, hs) = elim (Bool-cases (b == slash)) [
  | inl cut ↦ rw cut (tt, split-IsPlain bs hs)
  | inr on ↦
      rw on
        (extend-IsPlain b (split bs) (forbidden-IsPlain b h (ground arith)) (split-IsPlain bs hs))
]

split_nonempty : (bs : Bytes) → (s : Bytes) × (segs : List Bytes) × (split bs ≡ s ∷ segs)
unfolding split
split_nonempty [] = ([], [], refl)
split_nonempty (b ∷ bs) =
    let (s, segs, e) = split_nonempty bs in
    elim (Bool-cases (b == slash)) [
      | inl cut ↦ ([], split bs, rw cut refl)
      | inr on ↦ (b ∷ s, segs, rw on (rw e refl))
    ]

abbrev blanks : ℕ → List Bytes
blanks k = replicate k []

extend-append :
    (b : ℕ) (t : Bytes) (k : ℕ) → extend b (split t ++ blanks k) ≡ extend b (split t) ++ blanks k
extend-append b t k = let (s, segs, e) = split_nonempty t in rw e refl

-- Trailing slashes only take empty segments away.
split-trim_last :
    (b : ℕ) (bs t : Bytes) (k : ℕ)
    → split bs ≡ split t ++ blanks k
    → (n : ℕ) × (split (b ∷ bs) ≡ split (trim_last b t) ++ blanks n)
unfolding split
split-trim_last b bs [] k e = elim (Bool-cases (b == slash)) [
  | inl cut ↦ (suc k, rw cut (rw e refl))
  | inr on ↦ (k, rw on (rw e (rw on refl)))
]
split-trim_last b bs (c ∷ cs) k e = elim (Bool-cases (b == slash)) [
  | inl cut ↦ (k, rw cut (rw e refl))
  | inr on ↦ (k, rw on (rw e (extend-append b (c ∷ cs) k)))
]

split-trim_right : (bs : Bytes) → (k : ℕ) × (split bs ≡ split (trim_right bs) ++ blanks k)
unfolding trim_right
split-trim_right [] = (0, sym (append-nil (split [])))
split-trim_right (b ∷ bs) =
    let (k, e) = split-trim_right bs in split-trim_last b bs (trim_right bs) k e

good_segments-append :
    (xs ys : List Bytes) → good_segments (xs ++ ys) ≡ true → good_segments xs ≡ true
unfolding good_segments
good_segments-append [] ys h = refl
good_segments-append (x ∷ xs) ys h = ground (arith, good_segments-append xs ys)

trim_last-Allowed : (b : ℕ) (t : Bytes) → forbidden b ≡ false → Allowed t → Allowed (trim_last b t)
trim_last-Allowed b [] h hs = elim (Bool-cases (b == slash)) [
  | inl cut ↦ rw cut tt
  | inr on ↦ rw on (h, tt)
]
trim_last-Allowed b (c ∷ cs) h hs = (h, hs)

trim_right-Allowed : (bs : Bytes) → Allowed bs → Allowed (trim_right bs)
unfolding trim_right
trim_right-Allowed [] h = tt
trim_right-Allowed (b ∷ bs) (h, hs) =
    trim_last-Allowed b (trim_right bs) h (trim_right-Allowed bs hs)

good_segment-IsName :
    (b : ℕ) (bs : Bytes) → good_segment (b ∷ bs) ≡ true → All IsPlain (b ∷ bs) → IsName (b ∷ bs)
unfolding good_segment
good_segment-IsName b bs h plain = record {
  nonempty = λ e. cc;
  not_here = λ e. ground (arith, bytes_eq_iff (b ∷ bs) (dot ∷ []));
  not_up = λ e. ground (arith, bytes_eq_iff (b ∷ bs) (dot ∷ dot ∷ []));
  plain = plain;
  no_device = ground arith;
}

names-IsName :
    (segs : List Bytes)
    → good_segments segs ≡ true
    → All (All IsPlain) segs
    → All IsName (names segs)
unfolding good_segments
names-IsName [] h plain = tt
names-IsName ([] ∷ segs) h (p, plain) = names-IsName segs (ground arith) plain
names-IsName ((b ∷ bs) ∷ segs) h (p, plain) =
    (good_segment-IsName b bs (ground arith) p, names-IsName segs (ground arith) plain)

clean_onto-names :
    (p : FilePath) (segs : List Bytes)
    → good_segments segs ≡ true
    → clean_onto p segs ≡ p ++ names segs
unfolding clean_onto good_segments good_segment bytes_eq
clean_onto-names p [] h = sym (append-nil p)
clean_onto-names p ([] ∷ segs) h = clean_onto-names p segs (ground arith)
clean_onto-names p ((b ∷ bs) ∷ segs) h =
    let s = b ∷ bs in
    let good = clean_onto-names (p ++ (s ∷ [])) segs (ground arith) in
    let here : bytes_eq s (dot ∷ []) ≡ false = ground arith in
    let up : bytes_eq s (dot ∷ dot ∷ []) ≡ false = ground arith in
    rw (here, up) (good ∙ append_assoc p (s ∷ []) (names segs))

names-blanks : (xs : List Bytes) (k : ℕ) → names (xs ++ blanks k) ≡ names xs
names-blanks [] zero = refl
names-blanks [] (suc k) = names-blanks [] k
names-blanks ([] ∷ xs) k = names-blanks xs k
names-blanks ((b ∷ bs) ∷ xs) k = rw (names-blanks xs k) refl

-- What the tests of `checkPath` say.
check_path-success :
    (url : Bytes)
    → check_path url ≡ success tt
    → (rest : Bytes) × (url ≡ slash ∷ rest)
      × (has_double_slash (slash ∷ rest) ≡ false)
      × (any_forbidden rest ≡ false)
      × (good_segments (split rest) ≡ true)
unfolding check_path starts_with_slash any_forbidden
check_path-success [] h = absurd (ground arith)
check_path-success (b ∷ rest) h =
    let is : b ≡ slash = ground arith in
    let single : has_double_slash (b ∷ rest) ≡ false = ground arith in
    (rest, ground arith, rw is at single, ground arith, ground arith)

trim_left-single : (rest : Bytes) → has_double_slash (slash ∷ rest) ≡ false → trim_left rest ≡ rest
unfolding trim_left has_double_slash
trim_left-single [] h = refl
trim_left-single (b ∷ bs) h = ground arith

trim_left-slash : (rest : Bytes) → trim_left (slash ∷ rest) ≡ trim_left rest
unfolding trim_left
trim_left-slash rest = refl

-- The path that open looks up for a URL that checkPath lets through is the root and behind it, as
-- they stand, the segments of the URL that are not empty; each is a plain name: not a dot or two,
-- without a slash, backslash, colon or control character, and no device.
pub check_path-join_path :
    (root : FilePath) (url : Bytes)
    → check_path url ≡ success tt
    → (join_path root (trim_right (trim_left url)) ≡ root ++ names (split (drop 1 url)))
      × All IsName (names (split (drop 1 url)))
unfolding join_path
check_path-join_path root url h =
    let (rest, is, single, allowed, good) = check_path-success url h in
    let (k, e) = split-trim_right rest in
    let good' = good_segments-append (split (trim_right rest)) (blanks k) (rw e at good) in
    let same : names (split rest) ≡ names (split (trim_right rest)) =
      rw e (names-blanks (split (trim_right rest)) k) in
    (
      rw (is, trim_left-slash rest, trim_left-single rest single, same)
          (clean_onto-names root (split (trim_right rest)) good'),
      rw is (
          names-IsName (split rest) good (split-IsPlain rest (any_forbidden-Allowed rest allowed))),
    )
