-- ===== src/Server/Resolver.antt =====
-- internal/server/resolver.go: request paths onto files under one document root. The file system
-- is a parameter.
pub mod Checked
pub mod Contained
use bhttp_1_http_in_binary.Base.{
  ℕ, ◌-◌, Bool, true, false, not, ◌&&◌, ◌||◌, List, [], ◌∷◌, ◌++◌, Bytes, codes, bytes_eq, Result,
  success, failure, ◌>>=?◌, Error, bad_path, not_found, not_exist, not_dir, name_too_long, ltb, leb,
  ◌==◌, if◌then◌else◌, length, get_or, take, drop,
}
use mathlib.Core.List.{map}
use bhttp_1_http_in_binary.Stream.{Source}
use bhttp_1_http_in_binary.Protocol.Utf8.{valid_utf8}
use bhttp_1_http_in_binary.Server.Paths.{
  slash, dot, has_byte, starts_with_slash, ends_with_slash, has_double_slash, split, before_dot,
  upper, FilePath, join_path, relative, leads_up,
}

pub record FileInfo : Type 0 where
  pub name : Bytes
  pub size : ℕ
  pub is_regular : Bool

-- An open file: what Stat says of it, and what Read gives.
pub record File : Type 0 where
  pub stat : Result FileInfo
  pub content : Source

-- filepath.EvalSymlinks, os.Stat with IsDir, and os.Open.
pub record FileSystem : Type 0 where
  pub eval_symlinks : FilePath → Result FilePath
  pub stat_is_dir : FilePath → Result Bool
  pub open_file : FilePath → Result File

-- The bytes that no path may hold.
unfoldable pub forbidden : ℕ → Bool
forbidden c = ltb c 0x20 || c == 0x7f || has_byte c (codes "\\:*?\"<>|")

unfoldable pub any_forbidden : Bytes → Bool
unfolding forbidden
any_forbidden [] = false
any_forbidden (c ∷ cs) = forbidden c || any_forbidden cs

unfoldable pub reserved_stem : Bytes → Bool
reserved_stem stem =
    bytes_eq stem (codes "CON")
    || bytes_eq stem (codes "PRN")
    || bytes_eq stem (codes "AUX")
    || bytes_eq stem (codes "NUL")
    || (length stem == 4
        && (bytes_eq (take 3 stem) (codes "COM") || bytes_eq (take 3 stem) (codes "LPT"))
        && (leb b'1' (get_or stem 3 0) && leb (get_or stem 3 0) b'9'))

unfoldable pub reserved_device_name : Bytes → Bool
unfolding reserved_stem before_dot upper
reserved_device_name seg = reserved_stem (map upper (before_dot seg))

unfoldable pub last_byte : ℕ → Bytes → ℕ
last_byte b [] = b
last_byte b (c ∷ cs) = last_byte c cs

-- One segment of a path; an empty one is the root itself, or a trailing slash.
unfoldable pub good_segment : Bytes → Bool
unfolding last_byte reserved_device_name
good_segment [] = true
good_segment (b ∷ bs) =
    not (bytes_eq (b ∷ bs) (dot ∷ []) || bytes_eq (b ∷ bs) (dot ∷ dot ∷ []))
    && not (last_byte b bs == dot || last_byte b bs == b' ')
    && not (reserved_device_name (b ∷ bs))

unfoldable pub good_segments : List Bytes → Bool
unfolding good_segment
good_segments [] = true
good_segments (s ∷ segs) = good_segment s && good_segments segs

unfoldable pub check_path : Bytes → Result (Unit {0})
unfolding good_segments any_forbidden
check_path p =
    if not (starts_with_slash p) || not (valid_utf8 p) || has_double_slash p
    then failure bad_path
    else if any_forbidden p
    then failure bad_path
    else if good_segments (split (drop 1 p))
    then success tt
    else failure bad_path

-- Outside Windows.
abbrev pub is_unrepresentable_name : Error → Bool
is_unrepresentable_name name_too_long = true
is_unrepresentable_name _ = false

-- "Does not exist" style failures are an ordinary miss.
unfoldable pub missing_or : Error → Error
missing_or not_exist = not_found
missing_or not_dir = not_found
missing_or e = if is_unrepresentable_name e then not_found else e

abbrev pub or_missing {ℓ} : {A : Type ℓ} → Result A → Result A
or_missing (success a) = success a
or_missing (failure e) = failure (missing_or e)

-- strings.Trim(s, "/")
unfoldable pub trim_left : Bytes → Bytes
trim_left [] = []
trim_left (b ∷ bs) = let rest = trim_left bs in if b == slash then rest else b ∷ bs

abbrev pub trim_last : ℕ → Bytes → Bytes
trim_last b [] = if b == slash then [] else b ∷ []
trim_last b (c ∷ cs) = b ∷ c ∷ cs

unfoldable pub trim_right : Bytes → Bytes
trim_right [] = []
trim_right (b ∷ bs) = trim_last b (trim_right bs)

module _ (fs : FileSystem) (root : FilePath) where
  -- Links are resolved, and the result must still lie under the root.
  unfoldable pub within : FilePath → Result FilePath
  within path = or_missing (fs.eval_symlinks path) >>=? λ resolved.
      if leads_up (relative root resolved) then failure not_found else success resolved

  -- `open` behind the first Stat: the index of a directory, or the file itself.
  unfoldable pub choose_target : Bool → FilePath → Bool → Result FilePath
  unfolding within
  choose_target trailing target is_dir =
      if is_dir
      then within (join_path target (codes "index.html"))
      else if trailing
      then failure not_found
      else success target

  -- The checks on the open handle.
  unfoldable pub regular_file : File → Result (File × FileInfo)
  regular_file f =
      f.stat >>=? λ info. if not info.is_regular then failure not_found else success (f, info)

  unfoldable pub open_path : Bytes → Result (File × FileInfo)
  unfolding within choose_target regular_file check_path
  open_path url = check_path url >>=? λ _.
      within (join_path root (trim_right (trim_left url))) >>=? λ target.
      or_missing (fs.stat_is_dir target) >>=? λ is_dir.
      choose_target (ends_with_slash url) target is_dir >>=? λ chosen.
      or_missing (fs.open_file chosen) >>=? regular_file
