-- ===== src/Client.antt =====
-- internal/client/client.go: requests over one persistent connection, and the checks on the
-- answers. The writer that takes the body is a `Sink` of its own.
pub mod Lengths
pub mod Streams
use bhttp_1_http_in_binary.Base.{
  ℕ, zero, suc, ◌+◌, Bool, true, false, not, ◌||◌, List, [], ◌∷◌, ◌++◌, Bytes, codes, min, Error,
  eof, truncated, stream_zero, oversize, broken, remote, exhausted, unexpected_request,
  unexpected_frame, used_stream_zero, closed_early, declared_payload, wrapped, out_of_fuel,
  short_write, Outcome, ok, err, fold_outcome, fold_result, Exec, pure, fail, zoom, after,
  map_state, from_result, ◌>>=◌, ◌>>◌, Result, success, failure, ltb, ◌==◌, if◌then◌else◌, length,
  join, take,
}
use bhttp_1_http_in_binary.Stream.{Sink, write_once}
use bhttp_1_http_in_binary.Frame.{
  Frame, type_request, type_response, type_data, type_error, flag_end_stream, has_flag,
}
use bhttp_1_http_in_binary.Protocol.{method_get}
use bhttp_1_http_in_binary.Protocol.Headers.{Header}
use bhttp_1_http_in_binary.Protocol.Messages.{
  Request, Response, ConnError, encode_request, decode_response, decode_conn_error,
  code_frame_too_large, code_invalid_stream_id, code_protocol_error,
}
use bhttp_1_http_in_binary.Conn.{Conn, read_conn, write_conn, report_error}
use Lengths.{check_length}

-- `sendError`: best effort, since the connection is about to be dropped.
abbrev pub send_error : ℕ → Bytes → Conn → Conn
send_error = report_error

abbrev pub zero_message : Bytes
zero_message = codes "stream id 0 is not valid here"

abbrev pub large_message : Bytes
large_message = codes "frame payload is too large"

abbrev pub request_message : Bytes
request_message = codes "unexpected request from server"

-- What `readFrame` makes of a framing fault: the error frame for the server, and the error.
unfoldable pub frame_fault : Error → Exec Conn Frame
frame_fault stream_zero c = err used_stream_zero (send_error code_invalid_stream_id zero_message c)
frame_fault (oversize t n) c =
    err (declared_payload n)
      (if t == type_error then c else send_error code_frame_too_large large_message c)
frame_fault eof c = err closed_early c
frame_fault truncated c = err closed_early c
frame_fault e c = err (wrapped e) c

unfoldable pub read_frame : Exec Conn Frame
unfolding frame_fault
read_frame c = fold_outcome (read_conn c) (λ f c'. ok f c') (λ e c'. frame_fault e c')

-- A garbled error frame is still an error frame.
unfoldable pub remote_error : Frame → Error
remote_error f =
    fold_result (decode_conn_error f.payload) (λ ce. remote ce.code ce.message)
      (λ e. remote 0 (codes "unreadable error message"))

-- The kind of frame that is waited for, on the right stream.
unfoldable pub expect : Frame → ℕ → ℕ → Exec Conn (Unit {0})
unfolding remote_error
expect f want id c =
    if f.typ == type_error
    then err (remote_error f) c
    else if f.typ == type_request
    then err unexpected_request (send_error code_protocol_error request_message c)
    else if not (f.typ == want) || not (f.stream_id == id)
    then err unexpected_frame c
    else ok tt c

-- A download: the connection, and where the body goes.
pub record Download : Type 0 where
  pub conn : Conn
  pub body : Sink

abbrev pub on_conn {ℓ} : {A : Type ℓ} → Exec Conn A → Exec Download A
on_conn = zoom (λ d. d.conn) (λ d c. record d { conn = c })

-- The error of a body's writer is wrapped.
abbrev pub on_body : Exec Sink (Unit {0}) → Exec Download (Unit {0})
on_body m d =
    fold_outcome (m d.body) (λ a w. ok a (record d { body = w }))
      (λ e w. err (wrapped e) (record d { body = w }))

pub record Answer : Type 0 where
  pub status : ℕ
  pub headers : List Header
  pub body_bytes : ℕ

-- The loop over DATA frames, with the number of bytes so far. A round reads twelve bytes at least.
unfoldable pub read_body : ℕ → ℕ → ℕ → Exec Download ℕ
read_body zero id got = fail out_of_fuel
read_body (suc fuel) id got = do
  d ← on_conn read_frame
  on_conn (expect d type_data id)
  on_body (write_once d.payload)
  let got' = got + length d.payload
  if has_flag d.flags flag_end_stream then pure got' else read_body fuel id got'

abbrev pub bytes_left : Download → ℕ
bytes_left d = length (join d.conn.source.chunks)

unfoldable pub read_rest : ℕ → Frame → Exec Download ℕ
unfolding read_body
read_rest id f d =
    if has_flag f.flags flag_end_stream then ok 0 d else read_body (suc (bytes_left d)) id 0 d

unfoldable pub unwrap_response : Result Response → Exec Download Response
unwrap_response (success r) = pure r
unwrap_response (failure e) = fail (wrapped e)

unfoldable pub read_answer : ℕ → Exec Download Answer
unfolding read_rest unwrap_response
read_answer id = do
  f ← on_conn read_frame
  on_conn (expect f type_response id)
  resp ← unwrap_response (decode_response f.payload)
  got ← read_rest id f
  from_result (check_length resp.headers got)
  pure (record { status = resp.status; headers = resp.headers; body_bytes = got })

pub record Client : Type 0 where
  pub conn : Conn
  pub next : ℕ
  pub exhausted : Bool
  pub broken : Bool

unfoldable pub new_client : Conn → Client
new_client c = record { conn = c; next = 1; exhausted = false; broken = false }

-- `fail` ends the connection for good.
unfoldable pub fail_client : Client → Client
fail_client c = record c { broken = true; conn = record c.conn { closed = true } }

-- The stream of this request is taken, and the next one set up.
unfoldable pub take_stream : Client → Client
take_stream c =
    let last = c.next == 0xffffffff in
    record c {
      next = if last then c.next else c.next + 1;
      exhausted = if last then true else c.exhausted;
    }

abbrev pub Call : Type 0
Call = Client × Sink

abbrev pub request_frame : ℕ → Bytes → Frame
request_frame id payload = record {
  typ = type_request;
  flags = flag_end_stream;
  stream_id = id;
  payload = payload;
}

-- What `Get` makes of a download's end.
abbrev pub conclude : Client → Outcome Download Answer → Outcome Call Answer
conclude c (ok a d) = ok a (record c { conn = d.conn }, d.body)
conclude c (err e d) = err e (fail_client (record c { conn = d.conn }), d.body)

-- The exchange, once the request has its payload.
unfoldable pub exchange : ℕ → Bytes → Exec Call Answer
unfolding read_answer fail_client
exchange id payload (c, body) =
    fold_outcome (write_conn (request_frame id payload) c.conn)
      (λ _ conn. conclude c (read_answer id (record { conn = conn; body = body })))
      (λ e conn. err (wrapped e) (fail_client (record c { conn = conn }), body))

abbrev pub get_request : Bytes → List Header → Request
get_request path headers = record { method = method_get; path = path; headers = headers }

-- A request that cannot be built fails the call and not the client: the comment at that return says
-- so, where the one on Get says that no connection is usable behind an error.
unfoldable pub get : Bytes → List Header → Exec Call Answer
unfolding exchange take_stream fail_client
get path headers (c, body) =
    if c.broken
    then err Error.broken (c, body)
    else if c.exhausted
    then err Error.exhausted (fail_client c, body)
    else fold_result (encode_request (get_request path headers))
        (λ payload. exchange c.next payload (take_stream c, body))
        (λ e. err (wrapped e) (take_stream c, body))
