-- ===== src/Cli/Bserve.antt =====
-- cmd/bserve/main.go, with what it prints itself. The text of an error, and %q, are parameters.
pub mod Usage
use bhttp_1_http_in_binary.Base.{
  ℕ, ◌-◌, ◌^◌, Bool, true, false, not, ◌||◌, Option, none, some, List, [], ◌∷◌, ◌++◌, Bytes, codes,
  Error, Result, success, failure, fold_result, ltb, ◌==◌, if◌then◌else◌, length,
}
use bhttp_1_http_in_binary.Base.Decimal.{format_int, digits_value, all_digits}
use bhttp_1_http_in_binary.Base.Ints.{ℤ, pos, negsuc, negate, is_negative}
use bhttp_1_http_in_binary.Server.Paths.{FilePath}
use bhttp_1_http_in_binary.Server.Resolver.{FileSystem}
use bhttp_1_http_in_binary.Server.Startup.{Config, Server, new}
use bhttp_1_http_in_binary.Cli.Addresses.{colon}
use bhttp_1_http_in_binary.Cli.Messages.{error_line}

-- strconv.Atoi behind the sign, for 64 bits.
unfoldable pub signed : Bool → Bytes → Option ℤ
unfolding digits_value all_digits
signed minus ds =
    let n = digits_value 0 ds in
    if length ds == 0 || not (all_digits ds)
    then none
    else if ltb (if minus then 2 ^ 63 else 2 ^ 63 - 1) n
    then none
    else some (if minus then negate n else pos n)

unfoldable pub atoi : Bytes → Option ℤ
unfolding signed
atoi [] = none
atoi (c ∷ cs) =
    if c == b'-'
    then signed true cs
    else if c == b'+'
    then signed false cs
    else signed false (c ∷ cs)

abbrev pub in_range : Option ℤ → Option ℕ
in_range none = none
in_range (some (negsuc n)) = none
in_range (some (pos n)) = if ltb 65535 n then none else some n

-- The port of the second argument.
unfoldable pub port_of : Bytes → Option ℕ
unfolding atoi
port_of t = in_range (atoi t)

-- The exit status, what has been printed to standard error and to standard output, and the server.
pub record Served : Type 0 where
  pub status : ℕ
  pub message : Bytes
  pub announced : Bytes
  pub serving : Option Server

abbrev exits : ℕ → Bytes → Served
exits status message = record { status = status; message = message; announced = []; serving = none }

abbrev pub command : Bytes
command = codes "bserve"

abbrev pub usage_text : Bytes
usage_text = codes "usage: bserve <root> <port>\n"

-- The texts of errors, and %q.
pub record Texts : Type 0 where
  pub error_text : Error → Bytes
  pub quote : Bytes → Bytes

unfoldable pub bad_port_line : Texts → Bytes → Bytes
bad_port_line texts port =
    error_line command
      (texts.quote port ++ codes " is not a valid port (use 0-65535; 0 picks a free one)")

unfoldable pub listening_line : Bytes → Bytes → Bytes
listening_line addr root =
    codes "listening on " ++ (addr ++ (codes ", serving " ++ (root ++ codes "\n")))

-- `listen` is net.Listen("tcp", ...) with the text of the listener's address.
module _ (texts : Texts) (fs : FileSystem) (abs : Bytes → Result FilePath)
    (listen : Bytes → Result Bytes) where
  -- Serve has no way to return an error.
  unfoldable pub listen_and_serve : Bytes → ℕ → Server → Served
  unfolding listening_line
  listen_and_serve root port srv =
      fold_result (listen (colon ∷ format_int port))
        (λ addr. record {
          status = 0;
          message = [];
          announced = listening_line addr root;
          serving = some srv;
        })
        (λ e. exits 1 (error_line command (texts.error_text e)))

  unfoldable pub run_on_port : Bytes → Bytes → Option ℕ → Served
  unfolding listen_and_serve bad_port_line
  run_on_port root port none = exits 2 (bad_port_line texts port)
  run_on_port root port (some p) =
      fold_result (new fs abs (record { root = root; idle_timeout = pos 0; write_timeout = pos 0 }))
        (listen_and_serve root p) (λ e. exits 1 (error_line command (texts.error_text e)))

  unfoldable pub run : List Bytes → Served
  unfolding run_on_port port_of
  run [] = exits 2 usage_text
  run (root ∷ []) = exits 2 usage_text
  run (root ∷ port ∷ []) = run_on_port root port (port_of port)
  run (root ∷ port ∷ a ∷ args) = exits 2 usage_text
