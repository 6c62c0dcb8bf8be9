-- ===== src/Tests/Cli.antt =====
-- The command lines.
use bhttp_1_http_in_binary.Base.{
  ℕ, true, ◌≡◌, refl, arith, Option, none, some, List, [], ◌∷◌, ◌++◌, Bytes, codes, Result, success,
  failure, not_found, conn_failed, Error, bytes_eq, if◌then◌else◌,
}
use bhttp_1_http_in_binary.Protocol.Headers.{new_header}
use bhttp_1_http_in_binary.Conn.{Conn}
use bhttp_1_http_in_binary.Client.{Client, new_client}
use bhttp_1_http_in_binary.Cli.Addresses.{join_host_port, split_host_port}
use bhttp_1_http_in_binary.Cli.Flags.{parse}
use bhttp_1_http_in_binary.Cli.Bcurl.{
  Unicode, Settings, no_settings, flag_kind, set_flag, set_header, parse_target, run,
}
use bhttp_1_http_in_binary.Cli.Bcurl.Target.{IsAddress, parse_target-join_host_port}
use bhttp_1_http_in_binary.Cli.Bcurl.Answers.{EndsWith, run_file, run_missing}
use bhttp_1_http_in_binary.Tests.Server.{root, tree, path, hi_file, hi_info, open_path_path}
use bhttp_1_http_in_binary.Tests.Exchange.{
  encode_request_path, encode-request_frame, file_server, out, reader, misser, bare, nothing_there,
}

abbrev loopback : Bytes
loopback = codes "::1"

abbrev port : Bytes
port = codes "80"

loopback-IsAddress : IsAddress loopback port
unfolding bhttp_1_http_in_binary.Server.Paths.has_byte
loopback-IsAddress = record {
  has_host = omega arith;
  has_port = omega arith;
  host_slash = refl;
  port_slash = refl;
  host_left = refl;
  port_left = refl;
  host_right = refl;
  port_right = refl;
  port_colon = refl;
}

bracketed : join_host_port loopback port ++ codes "/x" ≡ codes "[::1]:80/x"
unfolding join_host_port bhttp_1_http_in_binary.Server.Paths.has_byte
bracketed = refl

parse_target-join_host_port_example :
    parse_target (codes "[::1]:80/x") ≡ some (codes "[::1]:80", codes "/x")
unfolding join_host_port bhttp_1_http_in_binary.Server.Paths.has_byte
parse_target-join_host_port_example =
    parse_target-join_host_port loopback port (codes "/x") loopback-IsAddress refl

no_port : parse_target (codes "host/x") ≡ none
unfolding parse_target split_host_port
no_port = refl

two_colons : parse_target (codes "::1:80/x") ≡ none
unfolding parse_target split_host_port bhttp_1_http_in_binary.Server.Paths.has_byte
two_colons = refl

-- A letter that is not ASCII is left as it is.
abbrev plain : Unicode
plain = record { lower = λ s. s; trim = λ s. s }

header_flag :
    parse flag_kind
      (set_flag plain)
      (codes "-v" ∷ codes "-H" ∷ codes " X-Demo:  hello " ∷ codes "a:1" ∷ [])
      no_settings
    ≡ some (
      record { verbose = true; headers = new_header (codes "x-demo") (codes "hello ") ∷ [] },
      codes "a:1" ∷ [],
    )
unfolding parse bytes_eq flag_kind set_flag set_header
    bhttp_1_http_in_binary.Cli.Addresses.cut_first bhttp_1_http_in_binary.Cli.Flags.parse_bool
    bhttp_1_http_in_binary.Protocol.Messages.encode_request
    bhttp_1_http_in_binary.Protocol.Utf8.valid_utf8
    bhttp_1_http_in_binary.Protocol.Headers.append_headers
    bhttp_1_http_in_binary.Protocol.Headers.append_loop
    bhttp_1_http_in_binary.Protocol.Headers.append_header
    bhttp_1_http_in_binary.Protocol.Headers.name_bytes
    bhttp_1_http_in_binary.Protocol.Headers.table_id
    bhttp_1_http_in_binary.Protocol.Headers.valid_custom_name
    bhttp_1_http_in_binary.Protocol.Headers.all_custom
    bhttp_1_http_in_binary.Protocol.Headers.custom_char bhttp_1_http_in_binary.Base.put_u16
header_flag = refl

no_name : parse flag_kind (set_flag plain) (codes "-H=: x" ∷ []) no_settings ≡ none
unfolding parse bytes_eq flag_kind bhttp_1_http_in_binary.Cli.Addresses.cut_first set_flag
no_name = refl

abbrev untold : Error → Bytes
untold e = codes "error"

-- Everything is at one address.
abbrev dial_to : Client → Bytes → Result Conn
dial_to c addr = if bytes_eq addr (codes "[::1]:80") then success c.conn else failure conn_failed

abbrev verbosely : Settings
verbosely = record { verbose = true; headers = [] }

abbrev line : List Bytes
line = codes "--v=1" ∷ (join_host_port loopback port ++ path) ∷ []

line_parsed :
    parse flag_kind (set_flag plain) line no_settings
    ≡ some (verbosely, (join_host_port loopback port ++ path) ∷ [])
unfolding parse bytes_eq flag_kind bhttp_1_http_in_binary.Cli.Addresses.cut_first set_flag
    bhttp_1_http_in_binary.Cli.Flags.parse_bool join_host_port
    bhttp_1_http_in_binary.Server.Paths.has_byte
line_parsed = refl

dialled : (c : Client) → dial_to c (join_host_port loopback port) ≡ success c.conn
unfolding bytes_eq join_host_port bhttp_1_http_in_binary.Server.Paths.has_byte
dialled c = refl

run_file_example : EndsWith (run plain untold (dial_to reader) line out) 0 (codes "hi") []
unfolding new_client
run_file_example =
    run_file plain untold (dial_to reader) line out verbosely loopback port path reader.conn refl tt
      loopback-IsAddress refl line_parsed (dialled reader) tree root file_server [] [] (omega arith)
      encode_request_path encode-request_frame refl refl hi_file hi_info (codes "hi") []
      open_path_path (omega arith) refl refl

run_missing_example :
    EndsWith
      (run plain untold (dial_to misser) line out)
      1
      []
      (codes "bcurl: server answered 404\n")
unfolding new_client bhttp_1_http_in_binary.Cli.Bcurl.answered_line
    bhttp_1_http_in_binary.Cli.Messages.error_line bhttp_1_http_in_binary.Base.Decimal.format_int
run_missing_example =
    run_missing plain untold (dial_to misser) line out verbosely loopback port path misser.conn refl
      tt loopback-IsAddress refl line_parsed (dialled misser) bare root file_server [] []
      (omega arith) encode_request_path encode-request_frame refl refl not_found nothing_there
