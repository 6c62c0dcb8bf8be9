-- ===== src/Server/Resolver/Contained.antt =====
-- Whatever the links of the file system do, what `open` opens lies under the document root.
use bhttp_1_http_in_binary.Base.{
  ◌≡◌, refl, sym, ap, ◌∙◌, arith, Bool, true, false, [], ◌∷◌, ◌++◌, Bytes, bytes_eq, bytes_eq_iff,
  success, failure, Result, Bool-cases, inl, inr, codes, replicate, length,
}
use bhttp_1_http_in_binary.Protocol.Headers.Write.{>>=?-eq-success}
use bhttp_1_http_in_binary.Server.Paths.{
  dot, FilePath, relative, leads_up, join_path, ends_with_slash,
}
use bhttp_1_http_in_binary.Server.Resolver.{
  FileInfo, File, FileSystem, within, choose_target, regular_file, open_path, check_path,
  or_missing, trim_left, trim_right,
}

-- `p` is the directory `root` or something below it.
abbrev pub IsUnder : FilePath → FilePath → Type 0
IsUnder root p = (q : FilePath) × (p ≡ root ++ q)

leads_up-up : (p : FilePath) → leads_up ((dot ∷ dot ∷ []) ∷ p) ≡ true
unfolding leads_up bytes_eq
leads_up-up p = refl

relative-IsUnder : (root p : FilePath) → leads_up (relative root p) ≡ false → IsUnder root p
unfolding relative
relative-IsUnder [] p h = (p, refl)
relative-IsUnder (b ∷ root) [] h =
    absurd (ground (arith, leads_up-up (replicate (length root) (dot ∷ dot ∷ []))))
relative-IsUnder (b ∷ root) (t ∷ p) h = elim (Bool-cases (bytes_eq b t)) [
  | inl same ↦
      let (q, e) = relative-IsUnder root p (rw same at h) in
      let is : b ≡ t = (bytes_eq_iff b t).0 same in (q, rw (is, e) refl)
  | inr other ↦
      absurd (ground (arith, leads_up-up (replicate (length root) (dot ∷ dot ∷ []) ++ (t ∷ p))))
]

or_missing-eq-success :
    {A : Type 0} (r : Result A) {a : A} → or_missing r ≡ success a → r ≡ success a
or_missing-eq-success (success a) h = h
or_missing-eq-success (failure e) h = cc

success-inj : {A : Type 0} {a b : A} → ◌≡◌ {A = Result A} (success a) (success b) → a ≡ b
success-inj h = cc

module _ (fs : FileSystem) (root : FilePath) where
  -- A path that links have been resolved in.
  abbrev pub IsResolved : FilePath → Type 0
  IsResolved p = (q : FilePath) × (fs.eval_symlinks q ≡ success p)

  within-success :
      (path : FilePath) {p : FilePath}
      → within fs root path ≡ success p
      → IsUnder root p × IsResolved p
  unfolding within
  within-success path {p} h =
      let (r, resolved, next) = >>=?-eq-success (or_missing (fs.eval_symlinks path)) _ h in
      elim (Bool-cases (leads_up (relative root r))) [
        | inl up ↦ absurd (ground arith)
        | inr down ↦
            let is : r ≡ p = ground arith in
            rw (← is) (
              relative-IsUnder root r down,
              (path, or_missing-eq-success (fs.eval_symlinks path) resolved),
            )
      ]

  choose_target-success :
      (trailing is_dir : Bool) (target : FilePath) {p : FilePath}
      → IsUnder root target × IsResolved target
      → choose_target fs root trailing target is_dir ≡ success p
      → IsUnder root p × IsResolved p
  unfolding choose_target
  choose_target-success trailing true target h e =
      within-success (join_path target (codes "index.html")) e
  choose_target-success true false target h e = absurd (ground arith)
  choose_target-success false false target {p} h e =
      let is : target ≡ p = ground arith in rw is at h

  regular_file-success :
      (f g : File) {info : FileInfo}
      → regular_file fs root f ≡ success (g, info)
      → (f ≡ g) × (g.stat ≡ success info) × (info.is_regular ≡ true)
  unfolding regular_file
  regular_file-success f g {info} e =
      let (i, stat, next) = >>=?-eq-success f.stat _ e in
      elim (Bool-cases i.is_regular) [
        | inl regular ↦
            let both : ◌≡◌ {A = File × FileInfo} (f, i) (g, info) =
              success-inj (rw regular at next) in
            let file : f ≡ g = ap (λ (x : File × FileInfo). x.0) both in
            let described : i ≡ info = ap (λ (x : File × FileInfo). x.1) both in
            (
              file,
              ap (λ (x : File). x.stat) (sym file) ∙ stat ∙ ap success described,
              rw (← described) regular,
            )
        | inr odd ↦ absurd (ground arith)
      ]

  -- Whatever the file system does, a file that open returns is a regular one as its open handle
  -- says, and was opened under a path with the root in front which is the result of resolving
  -- links.
  pub open_path-IsUnder :
      (url : Bytes) {f : File} {info : FileInfo}
      → open_path fs root url ≡ success (f, info)
      → (p : FilePath) × (fs.open_file p ≡ success f)
        × IsUnder root p
        × IsResolved p
        × (f.stat ≡ success info)
        × (info.is_regular ≡ true)
  unfolding open_path
  open_path-IsUnder url {f} {info} e =
      let (ok_path, checked, e1) = >>=?-eq-success (check_path url) _ e in
      let (target, inside, e2) =
        >>=?-eq-success (within fs root (join_path root (trim_right (trim_left url)))) _ e1 in
      let (is_dir, stat, e3) = >>=?-eq-success (or_missing (fs.stat_is_dir target)) _ e2 in
      let (chosen, choice, e4) =
        >>=?-eq-success (choose_target fs root (ends_with_slash url) target is_dir) _ e3 in
      let (g, opened, e5) = >>=?-eq-success (or_missing (fs.open_file chosen)) _ e4 in
      let (same, described, regular) = regular_file-success g f e5 in
      let (under, resolved) =
        choose_target-success (ends_with_slash url) is_dir target (within-success _ inside)
          choice in
      (
        chosen,
        or_missing-eq-success (fs.open_file chosen) opened ∙ ap success same,
        under,
        resolved,
        described,
        regular,
      )
