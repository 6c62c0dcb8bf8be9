-- ===== src/Cli/Bcurl.antt =====
-- cmd/bcurl/main.go: one request from the command line. On standard error is what this file prints: the
-- hexdump of -v, which Wire/Tap is about, and what the flag package prints in front of the usage are
-- left out. The text of an error is a parameter.
pub mod Target
pub mod Answers
use bhttp_1_http_in_binary.Base.{
  ℕ, ◌-◌, ◌+◌, Bool, true, false, not, ◌&&◌, ◌||◌, Option, none, some, List, [], ◌∷◌, ◌++◌, Bytes,
  codes, bytes_eq, Result, success, failure, Error, Outcome, ok, err, fold_result, fold_outcome,
  ltb, leb, ◌==◌, if◌then◌else◌, length,
}
use bhttp_1_http_in_binary.Stream.{Sink}
use bhttp_1_http_in_binary.Protocol.Headers.{Header, new_header}
use bhttp_1_http_in_binary.Protocol.Messages.{encode_request}
use bhttp_1_http_in_binary.Server.Paths.{slash}
use bhttp_1_http_in_binary.Conn.{Conn}
use bhttp_1_http_in_binary.Client.{Client, Answer, get_request, new_client, get}
use bhttp_1_http_in_binary.Cli.Addresses.{colon, cut_first, split_host_port, join_host_port}
use bhttp_1_http_in_binary.Base.Decimal.{format_int}
use bhttp_1_http_in_binary.Cli.Messages.{error_line}
use bhttp_1_http_in_binary.Cli.Flags.{Kind, switch, with_value, parse, parse_bool}

-- The tables of Unicode, for the texts that are not ASCII: strings.Map(unicode.ToLower, s) and
-- strings.TrimFunc(s, unicode.IsSpace).
pub record Unicode : Type 0 where
  pub lower : Bytes → Bytes
  pub trim : Bytes → Bytes

unfoldable pub is_ascii : Bytes → Bool
is_ascii [] = true
is_ascii (b ∷ bs) = ltb b 0x80 && is_ascii bs

abbrev lower_char : ℕ → ℕ
lower_char c = if leb b'A' c && leb c b'Z' then c + 32 else c

unfoldable pub lower_ascii : Bytes → Bytes
lower_ascii [] = []
lower_ascii (b ∷ bs) = lower_char b ∷ lower_ascii bs

-- strings.ToLower
unfoldable pub to_lower : Unicode → Bytes → Bytes
unfolding is_ascii lower_ascii
to_lower u s = if is_ascii s then lower_ascii s else u.lower s

-- '\t', '\n', '\v', '\f', '\r', ' '
abbrev is_space : ℕ → Bool
is_space c = (leb 9 c && leb c 13) || c == b' '

unfoldable pub trim_front : Bytes → Bytes
trim_front [] = []
trim_front (b ∷ bs) = let rest = trim_front bs in if is_space b then rest else b ∷ bs

abbrev pub trim_end : ℕ → Bytes → Bytes
trim_end b [] = if is_space b then [] else b ∷ []
trim_end b (c ∷ cs) = b ∷ c ∷ cs

unfoldable pub trim_back : Bytes → Bytes
trim_back [] = []
trim_back (b ∷ bs) = trim_end b (trim_back bs)

-- strings.TrimSpace
unfoldable pub trim_space : Unicode → Bytes → Bytes
unfolding is_ascii trim_front trim_back
trim_space u s = if is_ascii s then trim_back (trim_front s) else u.trim s

-- strings.TrimLeft(s, " \t")
unfoldable pub trim_blanks : Bytes → Bytes
trim_blanks [] = []
trim_blanks (b ∷ bs) = let rest = trim_blanks bs in if b == b' ' || b == b'\t' then rest else b ∷ bs

-- headerFlags.Set, once there is a colon.
unfoldable pub add_header : Bytes → Bytes → List Header → Option (List Header)
add_header name value headers =
    let h = new_header name value in
    if length name == 0
    then none
    else fold_result (encode_request (get_request (slash ∷ []) (h ∷ [])))
        (λ payload. some (headers ++ (h ∷ []))) (λ e. none)

-- headerFlags.Set
unfoldable pub set_header : Unicode → Option (Bytes × Bytes) → List Header → Option (List Header)
unfolding to_lower trim_space trim_blanks add_header
set_header u none headers = none
set_header u (some (name, value)) headers =
    add_header (to_lower u (trim_space u name)) (trim_blanks value) headers

-- What the flags say.
pub record Settings : Type 0 where
  pub verbose : Bool
  pub headers : List Header

abbrev pub no_settings : Settings
no_settings = record { verbose = false; headers = [] }

unfoldable pub flag_kind : Bytes → Option Kind
flag_kind name =
    if bytes_eq name (codes "v")
    then some switch
    else if bytes_eq name (codes "H")
    then some with_value
    else none

abbrev pub with_verbose : Settings → Option Bool → Option Settings
with_verbose s none = none
with_verbose s (some v) = some (record s { verbose = v })

abbrev pub with_headers : Settings → Option (List Header) → Option Settings
with_headers s none = none
with_headers s (some hs) = some (record s { headers = hs })

unfoldable pub set_flag : Unicode → Bytes → Bytes → Settings → Option Settings
unfolding set_header
set_flag u name value s =
    if bytes_eq name (codes "v")
    then with_verbose s (parse_bool value)
    else with_headers s (set_header u (cut_first colon value) s.headers)

-- The request path begins at the first slash.
unfoldable pub cut_path : Bytes → Bytes × Bytes
cut_path [] = ([], slash ∷ [])
cut_path (b ∷ bs) =
    let (authority, path) = cut_path bs in
    if b == slash then ([], b ∷ bs) else (b ∷ authority, path)

abbrev pub dial_address : Option (Bytes × Bytes) → Option Bytes
dial_address none = none
dial_address (some (host, port)) =
    if length host == 0 || length port == 0 then none else some (join_host_port host port)

abbrev pub with_path : Bytes → Option Bytes → Option (Bytes × Bytes)
with_path path none = none
with_path path (some addr) = some (addr, path)

unfoldable pub parse_target : Bytes → Option (Bytes × Bytes)
unfolding cut_path
parse_target target =
    let (authority, path) = cut_path target in
    with_path path (dial_address (split_host_port authority))

-- The exit status, what standard output has got, what has been printed to standard error, and the
-- client, closed.
pub record Finished : Type 0 where
  pub status : ℕ
  pub out : Sink
  pub message : Bytes
  pub client : Option Client

abbrev refused : ℕ → Bytes → Sink → Finished
refused status message out = record { status = status; out = out; message = message; client = none }

abbrev pub command : Bytes
command = codes "bcurl"

abbrev pub usage_text : Bytes
usage_text = codes "usage: bcurl [-v] [-H \"name: value\"]... <host>:<port>[/path]\n"

abbrev pub bad_target_text : Bytes
bad_target_text = codes "target must look like host:port/path"

-- Client.Close
unfoldable pub close_client : Client → Client
close_client c = record c { conn = record c.conn { closed = true } }

-- An answer of 4xx or 5xx is a failure.
unfoldable pub exit_status : ℕ → ℕ
exit_status status = if leb 400 status then 1 else 0

unfoldable pub answered_line : ℕ → Bytes
answered_line status = error_line command (codes "server answered " ++ format_int status)

-- What `run` makes of the end of `Get`.
unfoldable pub after_get : (Error → Bytes) → Outcome (Client × Sink) Answer → Finished
unfolding close_client exit_status
after_get error_text (err e (c, out)) = record {
  status = 3;
  out = out;
  message = error_line command (error_text e);
  client = some (close_client c);
}
after_get error_text (ok a (c, out)) = record {
  status = exit_status a.status;
  out = out;
  message = if leb 400 a.status then answered_line a.status else [];
  client = some (close_client c);
}

module _ (u : Unicode) (error_text : Error → Bytes) (dial : Bytes → Result Conn) where
  -- `run` with the target taken apart.
  unfoldable pub fetch : Settings → Bytes → Bytes → Sink → Finished
  unfolding after_get
  fetch settings addr path out =
      fold_result (dial addr)
        (λ conn. after_get error_text (get path settings.headers (new_client conn, out)))
        (λ e. refused 3 (error_line command (error_text e)) out)

  unfoldable pub fetch_target : Settings → Option (Bytes × Bytes) → Sink → Finished
  unfolding fetch
  fetch_target settings none out = refused 2 (error_line command bad_target_text) out
  fetch_target settings (some (addr, path)) out = fetch settings addr path out

  unfoldable pub run_parsed : Option (Settings × List Bytes) → Sink → Finished
  unfolding fetch_target parse_target
  run_parsed none out = refused 2 usage_text out
  run_parsed (some (settings, [])) out = refused 2 usage_text out
  run_parsed (some (settings, target ∷ [])) out = fetch_target settings (parse_target target) out
  run_parsed (some (settings, a ∷ b ∷ args)) out = refused 2 usage_text out

  unfoldable pub run : List Bytes → Sink → Finished
  unfolding run_parsed flag_kind set_flag
  run args out = run_parsed (parse flag_kind (set_flag u) args no_settings) out
