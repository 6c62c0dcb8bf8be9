-- ===== src/Cli/Bcurl/Answers.antt =====
-- bcurl against the server: what it writes, and the status that it exits with.
use bhttp_1_http_in_binary.Base.{
  ℕ, ◌<◌, ◌^◌, ◌≡◌, refl, ◌∙◌, arith, some, List, [], ◌∷◌, ◌++◌, append-nil, Bytes, Result, success,
  failure, length, join, Error, bad_path, not_found, Outcome, leb, if◌then◌else◌,
}
use bhttp_1_http_in_binary.Stream.{Sink}
use bhttp_1_http_in_binary.Frame.{encode}
use bhttp_1_http_in_binary.Protocol.Messages.{encode_request}
use bhttp_1_http_in_binary.Conn.{Conn}
use bhttp_1_http_in_binary.Server.Paths.{FilePath}
use bhttp_1_http_in_binary.Server.Resolver.{FileInfo, File, FileSystem, open_path}
use bhttp_1_http_in_binary.Client.{
  Client, Answer, Call, get_request, new_client, get, request_frame,
}
use bhttp_1_http_in_binary.Exchange.Sent.Body.{IsHealthy}
use bhttp_1_http_in_binary.Exchange.Bodies.{to_come, IsOpen}
use bhttp_1_http_in_binary.Exchange.Fetch.{
  IsReady, Gets, serve_next, sent_since, miss_status, get_file, get_missing,
}
use bhttp_1_http_in_binary.Cli.Addresses.{join_host_port}
use bhttp_1_http_in_binary.Cli.Flags.{parse}
use bhttp_1_http_in_binary.Cli.Bcurl.{
  Unicode, Settings, no_settings, flag_kind, set_flag, Finished, exit_status, run_parsed,
  fetch_target, fetch, after_get, answered_line, run,
}
use bhttp_1_http_in_binary.Cli.Bcurl.Target.{
  IsAddress, IsWritten, asked_path, parse_target-join_host_port,
}

new_client-IsReady : (conn : Conn) → IsHealthy conn → IsReady (new_client conn)
unfolding new_client
new_client-IsReady conn healthy = record {
  works = refl;
  has_streams = refl;
  positive = omega arith;
  in_range = omega arith;
  healthy = healthy;
}

-- bcurl has come to its end with this status, and has written this to its two outputs.
abbrev pub EndsWith : Finished → ℕ → Bytes → Bytes → Type 0
EndsWith f status written message =
    (f.status ≡ status) × (f.out.written ≡ written) × (f.message ≡ message)

after_get-Gets :
    (error_text : Error → Bytes) (c : Client) (out : Sink) (request content rest : Bytes)
    (a : Answer) (o : Outcome Call Answer)
    → Gets c out request a content rest o
    → EndsWith
        (after_get error_text o)
        (exit_status a.status)
        (out.written ++ content)
        (if leb 400 a.status then answered_line a.status else [])
unfolding after_get
after_get-Gets error_text c out request content rest a o g = rw g.result (refl, g.written, refl)

bad_status : (e : Error) → exit_status (miss_status e) ≡ 1
unfolding exit_status
bad_status bad_path = refl
bad_status not_found = refl
bad_status _ = refl

bad_message :
    (e : Error)
    → (if leb 400 (miss_status e) then answered_line (miss_status e) else [])
      ≡ answered_line (miss_status e)
bad_message bad_path = refl
bad_message not_found = refl
bad_message _ = refl

module _ (u : Unicode) (error_text : Error → Bytes) (dial : Bytes → Result Conn) (args : List Bytes)
    (out : Sink) (settings : Settings) (host port path : Bytes) (conn : Conn) (is_open : IsOpen out)
    (healthy : IsHealthy conn) (address : IsAddress host port) (written : IsWritten path)
    (parsed : parse flag_kind (set_flag u) args no_settings
      ≡ some (settings, (join_host_port host port ++ path) ∷ []))
    (dialled : dial (join_host_port host port) ≡ success conn) where
  run-get :
      run u error_text dial args out
      ≡ after_get error_text (get (asked_path path) settings.headers (new_client conn, out))
  unfolding run run_parsed fetch_target fetch
  run-get =
      rw parsed (rw (parse_target-join_host_port host port path address written) (rw dialled refl))

  module _ (fs : FileSystem) (root : FilePath) (s : Conn) {payload request : Bytes}
      (later more : Bytes) (server_healthy : IsHealthy s)
      (asked : encode_request (get_request (asked_path path) settings.headers) ≡ success payload)
      (framed : encode (request_frame 1 payload) ≡ success request)
      (arrives : to_come s ≡ request ++ later)
      (returns : to_come conn ≡ sent_since s (serve_next fs root s) ++ more) where
    -- A command line whose flags can be read, with the address of a server behind them and a path
    -- that the server opens as a file below 2^63 bytes, all of them there, on a healthy connection
    -- in any pieces: bcurl writes exactly the file's bytes, prints no message, and exits with 0.
    pub run_file :
        (file : File) (info : FileInfo) (content extra : Bytes)
        → open_path fs root (asked_path path) ≡ success (file, info)
        → info.size < 2 ^ 63
        → length content ≡ info.size
        → join file.content.chunks ≡ content ++ extra
        → EndsWith (run u error_text dial args out) 0 (out.written ++ content) []
    unfolding new_client exit_status
    run_file file info content extra found range size bytes =
        let got =
          get_file fs root (asked_path path) settings.headers (new_client conn) out s later more
            (new_client-IsReady conn healthy) is_open server_healthy asked framed arrives returns
            file info content extra found range size bytes in
        rw run-get (after_get-Gets error_text (new_client conn) out request content more _ _ got)

    -- The same for a path that the server cannot open: bcurl writes nothing, prints that the
    -- server answered 400, 404 or 500, whichever the failure asks for, and exits with 1.
    pub run_missing :
        (e : Error)
        → open_path fs root (asked_path path) ≡ failure e
        → EndsWith (run u error_text dial args out) 1 out.written (answered_line (miss_status e))
    unfolding new_client
    run_missing e missing =
        let got =
          get_missing fs root (asked_path path) settings.headers (new_client conn) out s later more
            (new_client-IsReady conn healthy) is_open server_healthy asked framed arrives returns e
            missing in
        let (status, nothing, message) =
          after_get-Gets error_text (new_client conn) out request [] more _ _ got in
        rw run-get
          (status ∙ bad_status e, nothing ∙ append-nil out.written, message ∙ bad_message e)
