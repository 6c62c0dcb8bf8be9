-- ===== src/Cli/Bcurl/Target.antt =====
-- What parseTarget makes of an address and a path that are written one behind the other.
use bhttp_1_http_in_binary.Base.{
  ℕ, ◌+◌, ◌≡◌, ◌<◌, refl, sym, ap, ◌∙◌, inl, inr, arith, true, false, ◌||◌, Bool-cases, none, some,
  [], ◌∷◌, ◌++◌, append_assoc, Bytes, ◌==◌, length, length-append,
}
use bhttp_1_http_in_binary.Server.Paths.{slash, has_byte}
use bhttp_1_http_in_binary.Cli.Addresses.{
  colon, left_bracket, right_bracket, cut_first, cut_last, bracketed_host, plain_host, host_of,
  split_host_port, join_host_port, starts_with,
}
use bhttp_1_http_in_binary.Cli.Bcurl.{cut_path, parse_target}

-- A host and a port as they stand in a target: an IPv6 address is a host with colons.
pub record IsAddress (host port : Bytes) : Type 0 where
  pub has_host : 0 < length host
  pub has_port : 0 < length port
  pub host_slash : has_byte slash host ≡ false
  pub port_slash : has_byte slash port ≡ false
  pub host_left : has_byte left_bracket host ≡ false
  pub port_left : has_byte left_bracket port ≡ false
  pub host_right : has_byte right_bracket host ≡ false
  pub port_right : has_byte right_bracket port ≡ false
  pub port_colon : has_byte colon port ≡ false

-- A path that is written behind the address, and the one that is asked for.
abbrev pub IsWritten : Bytes → Type 0
IsWritten [] = Unit {0}
IsWritten (b ∷ bs) = b ≡ slash

abbrev pub asked_path : Bytes → Bytes
asked_path [] = slash ∷ []
asked_path (b ∷ bs) = b ∷ bs

has_byte-append : (c : ℕ) (x y : Bytes) → has_byte c (x ++ y) ≡ has_byte c x || has_byte c y
unfolding has_byte
has_byte-append c [] y = refl
has_byte-append c (b ∷ x) y = ground (arith, has_byte-append c x y)

cut_path-append :
    (a path : Bytes)
    → has_byte slash a ≡ false
    → IsWritten path
    → cut_path (a ++ path) ≡ (a, asked_path path)
unfolding cut_path has_byte
cut_path-append [] [] h w = refl
cut_path-append [] (b ∷ bs) h w = let e : (b == slash) ≡ true = ground arith in rw e refl
cut_path-append (b ∷ a) path h w =
    let e : (b == slash) ≡ false = ground arith in
    rw e (rw (cut_path-append a path (ground arith) w) refl)

cut_last-absent : (c : ℕ) (b : Bytes) → has_byte c b ≡ false → cut_last c b ≡ none
unfolding cut_last has_byte
cut_last-absent c [] h = refl
cut_last-absent c (x ∷ b) h =
    let e : (x == c) ≡ false = ground arith in rw (cut_last-absent c b (ground arith)) (rw e refl)

cut_last-append :
    (c : ℕ) (a b : Bytes) → has_byte c b ≡ false → cut_last c (a ++ (c ∷ b)) ≡ some (a, b)
unfolding cut_last
cut_last-append c [] b h =
    let e : (c == c) ≡ true = ground arith in rw (cut_last-absent c b h) (rw e refl)
cut_last-append c (x ∷ a) b h = rw (cut_last-append c a b h) refl

cut_first-append :
    (c : ℕ) (a b : Bytes) → has_byte c a ≡ false → cut_first c (a ++ (c ∷ b)) ≡ some (a, b)
unfolding cut_first has_byte
cut_first-append c [] b h = let e : (c == c) ≡ true = ground arith in rw e refl
cut_first-append c (x ∷ a) b h =
    let e : (x == c) ≡ false = ground arith in
    rw e (rw (cut_first-append c a b (ground arith)) refl)

starts_with-append :
    (c : ℕ) (x y : Bytes) → 0 < length x → has_byte c x ≡ false → starts_with c (x ++ y) ≡ false
unfolding has_byte
starts_with-append c [] y h l = absurd (omega arith)
starts_with-append c (b ∷ x) y h l = ground arith

module _ (host port : Bytes) (h : IsAddress host port) where
  split_plain :
      has_byte colon host ≡ false → split_host_port (host ++ (colon ∷ port)) ≡ some (host, port)
  unfolding split_host_port host_of plain_host
  split_plain no_colon =
      let left : has_byte left_bracket (host ++ (colon ∷ port)) ≡ false =
        unfold has_byte in
        ground
          (arith, has_byte-append left_bracket host (colon ∷ port), h.host_left, h.port_left) in
      let right : has_byte right_bracket (host ++ (colon ∷ port)) ≡ false =
        unfold has_byte in
        ground
          (arith, has_byte-append right_bracket host (colon ∷ port), h.host_right, h.port_right) in
      let front = starts_with-append left_bracket host (colon ∷ port) h.has_host h.host_left in
      rw (cut_last-append colon host port h.port_colon) (rw front (rw (no_colon, left, right) refl))

  split_bracketed :
      split_host_port (left_bracket ∷ (host ++ (right_bracket ∷ colon ∷ port))) ≡ some (host, port)
  unfolding split_host_port host_of bracketed_host
  split_bracketed =
      let whole = left_bracket ∷ (host ++ (right_bracket ∷ colon ∷ port)) in
      let before = left_bracket ∷ (host ++ (right_bracket ∷ [])) in
      let front = left_bracket ∷ host in
      let last : cut_last colon whole ≡ some (before, port) =
        ap (λ (x : Bytes). cut_last colon (left_bracket ∷ x))
          (sym (append_assoc host (right_bracket ∷ []) (colon ∷ port)))
        ∙ cut_last-append colon before port h.port_colon in
      let no_right : has_byte right_bracket front ≡ false =
        unfold has_byte in ground (arith, h.host_right) in
      let first : cut_first right_bracket whole ≡ some (front, colon ∷ port) =
        cut_first-append right_bracket front (colon ∷ port) no_right in
      let same : (length before == length front + 1) ≡ true =
        ground (arith, length-append host (right_bracket ∷ [])) in
      let left : has_byte left_bracket (host ++ (right_bracket ∷ colon ∷ port)) ≡ false =
        unfold has_byte in
        ground (
          arith,
          has_byte-append left_bracket host (right_bracket ∷ colon ∷ port),
          h.host_left,
          h.port_left,
        ) in
      let right : has_byte right_bracket (colon ∷ port) ≡ false =
        unfold has_byte in ground (arith, h.port_right) in
      rw (last, first) (rw (same, left, right) refl)

  split-join_host_port : split_host_port (join_host_port host port) ≡ some (host, port)
  unfolding join_host_port
  split-join_host_port = elim (Bool-cases (has_byte colon host)) [
    | inl some_colon ↦ rw some_colon split_bracketed
    | inr no_colon ↦ rw no_colon (split_plain no_colon)
  ]

  join_host_port-slash : has_byte slash (join_host_port host port) ≡ false
  unfolding join_host_port
  join_host_port-slash = elim (Bool-cases (has_byte colon host)) [
    | inl some_colon ↦ rw some_colon (
        unfold has_byte in
        ground (
          arith,
          has_byte-append slash host (right_bracket ∷ colon ∷ port),
          h.host_slash,
          h.port_slash,
        ))
    | inr no_colon ↦ rw no_colon (
        unfold has_byte in
        ground (arith, has_byte-append slash host (colon ∷ port), h.host_slash, h.port_slash))
  ]

-- A target of an address and a path is taken apart into the two: whatever the host is, an IPv6
-- address included, if host and port are not empty and hold no slash and no bracket, and the port
-- no colon. Without a path the path is "/".
pub parse_target-join_host_port :
    (host port path : Bytes)
    → IsAddress host port
    → IsWritten path
    → parse_target (join_host_port host port ++ path)
      ≡ some (join_host_port host port, asked_path path)
unfolding parse_target
parse_target-join_host_port host port path h w =
    let t1 : (length host == 0) ≡ false = ground (arith, h.has_host) in
    let t2 : (length port == 0) ≡ false = ground (arith, h.has_port) in
    rw (cut_path-append (join_host_port host port) path (join_host_port-slash host port h) w)
      (rw (split-join_host_port host port h) (rw (t1, t2) refl))
