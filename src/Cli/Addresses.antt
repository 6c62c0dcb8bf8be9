-- ===== src/Cli/Addresses.antt =====
-- net.SplitHostPort and net.JoinHostPort, with the texts of the errors left out.
use bhttp_1_http_in_binary.Base.{
  ℕ, ◌+◌, Bool, not, ◌||◌, Option, none, some, [], ◌∷◌, ◌++◌, Bytes, ◌==◌, if◌then◌else◌, length,
  drop,
}
use bhttp_1_http_in_binary.Server.Paths.{has_byte}

abbrev pub colon : ℕ
colon = b':'

abbrev pub left_bracket : ℕ
left_bracket = b'['

abbrev pub right_bracket : ℕ
right_bracket = b']'

abbrev pub in_front : ℕ → Option (Bytes × Bytes) → Option (Bytes × Bytes)
in_front b none = none
in_front b (some (x, y)) = some (b ∷ x, y)

-- What stands before and behind the first, and the last, `c`.
unfoldable pub cut_first : ℕ → Bytes → Option (Bytes × Bytes)
cut_first c [] = none
cut_first c (b ∷ bs) =
    let rest = in_front b (cut_first c bs) in if b == c then some ([], bs) else rest

abbrev pub or_here : ℕ → ℕ → Bytes → Option (Bytes × Bytes) → Option (Bytes × Bytes)
or_here c b bs (some (x, y)) = some (b ∷ x, y)
or_here c b bs none = if b == c then some ([], bs) else none

unfoldable pub cut_last : ℕ → Bytes → Option (Bytes × Bytes)
cut_last c [] = none
cut_last c (b ∷ bs) = or_here c b bs (cut_last c bs)

-- A host in brackets: the first `]` must be just before the last `:`.
unfoldable pub bracketed_host :
    Bytes → Bytes × Bytes → Option (Bytes × Bytes) → Option (Bytes × Bytes)
bracketed_host s (before, port) none = none
bracketed_host s (before, port) (some (host, behind)) =
    if not (length before == length host + 1)
      || has_byte left_bracket (drop 1 s)
      || has_byte right_bracket behind
    then none
    else some (drop 1 host, port)

unfoldable pub plain_host : Bytes → Bytes × Bytes → Option (Bytes × Bytes)
plain_host s (host, port) =
    if has_byte colon host || has_byte left_bracket s || has_byte right_bracket s
    then none
    else some (host, port)

abbrev pub starts_with : ℕ → Bytes → Bool
starts_with c [] = Bool.false
starts_with c (b ∷ bs) = b == c

unfoldable pub host_of : Bytes → Option (Bytes × Bytes) → Option (Bytes × Bytes)
unfolding bracketed_host plain_host
host_of s none = none
host_of s (some cut) =
    if starts_with left_bracket s
    then bracketed_host s cut (cut_first right_bracket s)
    else plain_host s cut

unfoldable pub split_host_port : Bytes → Option (Bytes × Bytes)
unfolding host_of cut_first cut_last
split_host_port s = host_of s (cut_last colon s)

unfoldable pub join_host_port : Bytes → Bytes → Bytes
join_host_port host port =
    if has_byte colon host
    then left_bracket ∷ (host ++ (right_bracket ∷ colon ∷ port))
    else host ++ (colon ∷ port)
