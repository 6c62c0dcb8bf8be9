-- ===== src/Server/Paths.antt =====
-- What internal/server uses of the packages strings and path/filepath, on a Unix system. An
-- absolute, clean path is the list of its segments, the root directory the empty list.
use bhttp_1_http_in_binary.Base.{
  ℕ, suc, Bool, false, ◌&&◌, ◌||◌, List, [], ◌∷◌, ◌++◌, Bytes, bytes_eq, ◌==◌, leb, if◌then◌else◌,
  ◌-◌, replicate, length,
}

abbrev pub slash : ℕ
slash = b'/'

abbrev pub dot : ℕ
dot = b'.'

-- strings.IndexByte(s, c) >= 0
unfoldable pub has_byte : ℕ → Bytes → Bool
has_byte c [] = false
has_byte c (b ∷ bs) = b == c || has_byte c bs

-- strings.HasPrefix(s, "/") and strings.HasSuffix(s, "/")
unfoldable pub starts_with_slash : Bytes → Bool
starts_with_slash [] = false
starts_with_slash (b ∷ bs) = b == slash

unfoldable pub ends_with_slash : Bytes → Bool
ends_with_slash [] = false
ends_with_slash (b ∷ []) = b == slash
ends_with_slash (b ∷ c ∷ bs) = ends_with_slash (c ∷ bs)

-- strings.Contains(s, "//")
unfoldable pub has_double_slash : Bytes → Bool
has_double_slash [] = false
has_double_slash (b ∷ []) = false
has_double_slash (b ∷ c ∷ bs) = (b == slash && c == slash) || has_double_slash (c ∷ bs)

-- A byte in front of the first segment.
abbrev pub extend : ℕ → List Bytes → List Bytes
extend b [] = (b ∷ []) ∷ []
extend b (s ∷ segs) = (b ∷ s) ∷ segs

-- strings.Split(s, "/")
unfoldable pub split : Bytes → List Bytes
split [] = [] ∷ []
split (b ∷ bs) = let segs = split bs in if b == slash then [] ∷ segs else extend b segs

-- The part of a name before its first dot, which is all of it if there is none.
unfoldable pub before_dot : Bytes → Bytes
before_dot [] = []
before_dot (b ∷ bs) = let rest = before_dot bs in if b == dot then [] else b ∷ rest

-- strings.ToUpper, as far as a comparison with "CON", "PRN", "AUX", "NUL", "COM" or "LPT" and a
-- digit can tell: no character that is not ASCII has one of those letters for its upper case.
unfoldable pub upper : ℕ → ℕ
upper c = if leb b'a' c && leb c b'z' then c - 32 else c

abbrev pub FilePath : Type 0
FilePath = List Bytes

unfoldable pub drop_last : FilePath → FilePath
drop_last [] = []
drop_last (s ∷ []) = []
drop_last (s ∷ t ∷ p) = s ∷ drop_last (t ∷ p)

-- filepath.Join(p, rel): the segments of `rel` are appended and the path is cleaned.
unfoldable pub clean_onto : FilePath → List Bytes → FilePath
unfolding drop_last
clean_onto p [] = p
clean_onto p (s ∷ segs) =
    let next = if bytes_eq s (dot ∷ dot ∷ []) then drop_last p else p ++ (s ∷ []) in
    clean_onto (if bytes_eq s [] || bytes_eq s (dot ∷ []) then p else next) segs

unfoldable pub join_path : FilePath → Bytes → FilePath
unfolding clean_onto split
join_path p rel = clean_onto p (split rel)

-- filepath.Rel of two absolute paths: up from what the base has more, and down to the target.
-- For one and the same path it is ".".
unfoldable pub relative : FilePath → FilePath → List Bytes
relative [] [] = (dot ∷ []) ∷ []
relative [] (t ∷ ts) = t ∷ ts
relative (b ∷ bs) [] = replicate (suc (length bs)) (dot ∷ dot ∷ [])
relative (b ∷ bs) (t ∷ ts) =
    let same = relative bs ts in
    if bytes_eq b t then same else replicate (suc (length bs)) (dot ∷ dot ∷ []) ++ (t ∷ ts)

-- rel == ".." or a prefix "../": the first segment is "..".
unfoldable pub leads_up : List Bytes → Bool
leads_up [] = false
leads_up (s ∷ segs) = bytes_eq s (dot ∷ dot ∷ [])
