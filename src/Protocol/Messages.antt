-- ===== src/Protocol/Messages.antt =====
-- internal/protocol/messages.go: the payloads of REQUEST, RESPONSE and ERROR frames. A status is a
-- Go int; a negative one is refused like 0 is, so it is a number here.
pub mod RoundTrip
pub mod Accepted
use bhttp_1_http_in_binary.Base.{
  ℕ, ◌+◌, Bool, not, ◌&&◌, ◌||◌, List, [], ◌∷◌, ◌++◌, Bytes, put_u16, Result, success, failure,
  ◌>>=?◌, Outcome, ok, err, Exec, fail, pure, malformed, too_large, unencodable, ◌>>=◌, ◌>>◌, ltb,
  leb, ◌==◌, if◌then◌else◌, length,
}
use bhttp_1_http_in_binary.Protocol.{
  max_path_len, max_frame_payload, method_get, take_bytes, u8, u16, finish,
}
use bhttp_1_http_in_binary.Protocol.Utf8.{valid_utf8}
use bhttp_1_http_in_binary.Protocol.Headers.{
  Header, append_headers, read_headers, strict_names, structural_names,
}

pub record Request : Type 0 where
  pub method : ℕ
  pub path : Bytes
  pub headers : List Header

pub record Response : Type 0 where
  pub status : ℕ
  pub headers : List Header

pub record ConnError : Type 0 where
  pub code : ℕ
  pub message : Bytes

abbrev pub code_frame_too_large : ℕ
code_frame_too_large = 1

abbrev pub code_invalid_stream_id : ℕ
code_invalid_stream_id = 2

abbrev pub code_protocol_error : ℕ
code_protocol_error = 3

-- `c := &cursor{b: payload}`; the cursor is gone when the decoder returns.
abbrev pub forget_cursor {ℓ} : {A : Type ℓ} → Outcome Bytes A → Result A
forget_cursor (ok a c) = success a
forget_cursor (err e c) = failure e

-- The last check of the three encoders.
abbrev pub in_one_frame : Bytes → Result Bytes
in_one_frame b = if ltb max_frame_payload (length b) then failure too_large else success b

abbrev pub bad_path_length : Bytes → Bool
bad_path_length path = length path == 0 || ltb max_path_len (length path)

-- The fields in front of the headers.
abbrev pub request_front : Request → Bytes
request_front r = r.method ∷ (put_u16 (length r.path) ++ r.path)

unfoldable pub encode_request : Request → Result Bytes
encode_request r =
    if not (r.method == method_get)
    then failure unencodable
    else if bad_path_length r.path
    then failure unencodable
    else if not (valid_utf8 r.path)
    then failure unencodable
    else (append_headers (request_front r) r.headers >>=? in_one_frame)

unfoldable pub read_path : Exec Bytes Bytes
read_path = do
  n ← u16
  if n == 0 || ltb max_path_len n
      then fail malformed
      else do path ← take_bytes n; if not (valid_utf8 path) then fail malformed else pure path

unfoldable pub read_request : Exec Bytes Request
unfolding read_path
read_request = do
  method ← u8
  if not (method == method_get) then fail malformed else do
    path ← read_path
    headers ← read_headers strict_names
    finish
    pure (record { method = method_get; path = path; headers = headers })

unfoldable pub decode_request : Bytes → Result Request
unfolding read_request
decode_request payload = forget_cursor (read_request payload)

unfoldable pub valid_status : ℕ → Bool
valid_status s = leb 100 s && leb s 599

unfoldable pub encode_response : Response → Result Bytes
encode_response r =
    if not (valid_status r.status)
    then failure unencodable
    else (append_headers (put_u16 r.status) r.headers >>=? in_one_frame)

unfoldable pub read_response : Exec Bytes Response
read_response = do
  status ← u16
  if not (valid_status status) then fail malformed else do
    headers ← read_headers structural_names
    finish
    pure (record { status = status; headers = headers })

unfoldable pub decode_response : Bytes → Result Response
unfolding read_response
decode_response payload = forget_cursor (read_response payload)

unfoldable pub encode_conn_error : ConnError → Result Bytes
encode_conn_error e =
    if ltb max_frame_payload (4 + length e.message)
    then failure too_large
    else success (put_u16 e.code ++ (put_u16 (length e.message) ++ e.message))

unfoldable pub read_conn_error : Exec Bytes ConnError
read_conn_error = do
  code ← u16
  n ← u16
  message ← take_bytes n
  finish
  pure (record { code = code; message = message })

unfoldable pub decode_conn_error : Bytes → Result ConnError
unfolding read_conn_error
decode_conn_error payload = forget_cursor (read_conn_error payload)
