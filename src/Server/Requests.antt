-- ===== src/Server/Requests.antt =====
-- internal/server/request.go: answering one REQUEST frame.
pub mod Writing
pub mod ReadSide
use bhttp_1_http_in_binary.Base.{
  ℕ, zero, suc, ◌+◌, ◌-◌, ◌/◌, ◌%◌, Bool, true, false, not, ◌||◌, List, [], ◌∷◌, Bytes, codes, min,
  bit_and, Error, bad_path, not_found, body_error, out_of_fuel, Outcome, ok, err, Exec, pure, fail,
  from_result, ◌>>=◌, ◌>>◌, fold_outcome, fold_result, ltb, ◌==◌, if◌then◌else◌, length,
}
use bhttp_1_http_in_binary.Stream.{Source, chunked}
use bhttp_1_http_in_binary.Frame.{
  Frame, max_payload, type_response, type_data, flag_end_stream, has_flag,
}
use bhttp_1_http_in_binary.Protocol.Headers.{Header, new_header, content_length}
use bhttp_1_http_in_binary.Protocol.Messages.{Request, Response, encode_response, decode_request}
use bhttp_1_http_in_binary.Server.Paths.{FilePath}
use bhttp_1_http_in_binary.Server.Resolver.{FileInfo, File, FileSystem, open_path}
use bhttp_1_http_in_binary.Server.Mime.{content_type}
use bhttp_1_http_in_binary.Conn.{Conn, write_conn}
use bhttp_1_http_in_binary.Base.Decimal.{format_int}

abbrev pub server_name : Bytes
server_name = codes "bserve/1"

abbrev pub response_frame : ℕ → Bytes → Bool → Frame
response_frame stream payload end_stream = record {
  typ = type_response;
  flags = if end_stream then flag_end_stream else 0;
  stream_id = stream;
  payload = payload;
}

unfoldable pub send_response : ℕ → ℕ → List Header → Bool → Exec Conn (Unit {0})
send_response stream status headers end_stream =
    from_result (encode_response (record { status = status; headers = headers })) >>= λ payload.
    write_conn (response_frame stream payload end_stream)

-- The headers of a response with no body.
abbrev pub status_headers : List Header
status_headers =
    new_header content_length (codes "0") ∷ new_header (codes "server") server_name ∷ []

unfoldable pub send_status : ℕ → ℕ → Exec Conn (Unit {0})
unfolding send_response
send_status stream status = send_response stream status status_headers true

abbrev pub reject : ℕ → Exec Conn (Unit {0})
reject stream = send_status stream 400

abbrev pub data_frame : ℕ → Bytes → Bool → Frame
data_frame stream chunk last = record {
  typ = type_data;
  flags = if last then flag_end_stream else 0;
  stream_id = stream;
  payload = chunk;
}

-- The loop of `sendFile`, with what remains of the announced size. Each round sends a byte at
-- least, so the size itself is fuel enough.
unfoldable pub send_body : ℕ → ℕ → ℕ → Source → Exec Conn (Unit {0})
send_body fuel stream zero file = pure tt
send_body zero stream (suc n) file = fail out_of_fuel
send_body (suc fuel) stream (suc n) file =
    let size = min max_payload (suc n) in
    let rest = suc n - size in
    fold_outcome (chunked.read_full size file)
      (λ chunk file'.
        write_conn (data_frame stream chunk (rest == 0)) >> send_body fuel stream rest file')
      (λ e _. fail (body_error e))

abbrev pub file_headers : Bytes → ℕ → List Header
file_headers ctype size =
    new_header (codes "content-type") ctype
    ∷ new_header content_length (format_int size)
    ∷ new_header (codes "server") server_name
    ∷ []

unfoldable pub send_file : ℕ → Source → ℕ → Bytes → Exec Conn (Unit {0})
unfolding send_response send_body
send_file stream file size ctype =
    send_response stream 200 (file_headers ctype size) (size == 0)
    >> send_body size stream size file

-- The three ways that `open` can fail.
unfoldable pub answer_miss : ℕ → Error → Exec Conn (Unit {0})
answer_miss stream bad_path = reject stream
answer_miss stream not_found = send_status stream 404
answer_miss stream _ = send_status stream 500

-- `f.Flags &^ FlagEndStream != 0 || !f.Flags.Has(FlagEndStream)`
unfoldable pub wrong_flags : ℕ → Bool
unfolding has_flag
wrong_flags flags = not (bit_and flags 0xfe == 0) || not (has_flag flags flag_end_stream)

module _ (fs : FileSystem) (root : FilePath) where
  unfoldable pub answer_request : ℕ → Request → Exec Conn (Unit {0})
  unfolding answer_miss
  answer_request stream req =
      fold_result (open_path fs root req.path)
        (λ o. send_file stream o.0.content o.1.size (content_type o.1.name))
        (λ e. answer_miss stream e)

  unfoldable pub serve_request : Frame → Exec Conn (Unit {0})
  unfolding answer_request wrong_flags
  serve_request f =
      if wrong_flags f.flags
      then reject f.stream_id
      else fold_result (decode_request f.payload) (λ req. answer_request f.stream_id req)
          (λ e. reject f.stream_id)
