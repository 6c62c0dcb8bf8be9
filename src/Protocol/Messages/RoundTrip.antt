-- ===== src/Protocol/Messages/RoundTrip.antt =====
-- Each message that can be encoded is decoded to itself.
use bhttp_1_http_in_binary.Base.{
  ℕ, ◌+◌, ◌≤◌, ◌<◌, ◌^◌, ◌≡◌, refl, sym, ◌∙◌, arith, true, false, [], ◌∷◌, ◌++◌, append-nil,
  append_assoc, Bytes, put_u16, success, ◌>>=?◌, List, ok, length,
}
use bhttp_1_http_in_binary.Protocol.{take_bytes, max_headers, method_get, max_frame_payload}
use bhttp_1_http_in_binary.Protocol.Cursor.{take_bytes-append, u8-cons, u16-put_u16, finish-nil}
use bhttp_1_http_in_binary.Protocol.Utf8.{valid_utf8}
use bhttp_1_http_in_binary.Protocol.Headers.{
  Header, NameRules, read_headers, strict_names, structural_names, append_headers,
}
use bhttp_1_http_in_binary.Protocol.Headers.Write.{Written, append_headers-Written, >>=?-eq-success}
use bhttp_1_http_in_binary.Protocol.Headers.Parse.{read_headers-Written}
use bhttp_1_http_in_binary.Protocol.Messages.{
  Request, Response, ConnError, request_front, in_one_frame, encode_request, read_path,
  read_request, decode_request, valid_status, encode_response, decode_response, encode_conn_error,
  decode_conn_error, bad_path_length,
}

in_one_frame-eq-success :
    (b : Bytes) {c : Bytes} → in_one_frame b ≡ success c → (b ≡ c) × (length c ≤ max_frame_payload)
in_one_frame-eq-success b h = (ground arith, ground arith)

-- What the headers add behind the bytes in front of them.
headers_in_frame :
    (front : Bytes) (hs : List Header) {b : Bytes}
    → append_headers front hs >>=? in_one_frame ≡ success b
    → (length hs ≤ max_headers)
      × (length b ≤ max_frame_payload)
      × ((bs : Bytes) × (b ≡ front ++ (length hs ∷ bs)) × Written hs bs)
headers_in_frame front hs e =
    let (c, all, last) = >>=?-eq-success (append_headers front hs) in_one_frame e in
    let (same, fits) = in_one_frame-eq-success c last in
    let (few, (bs, is, written)) = append_headers-Written front hs all in
    (few, fits, (bs, sym same ∙ is, written))

-- The headers are the last field of both messages.
read_back :
    (rules : NameRules) (hs : List Header) (bs : Bytes)
    → length hs ≤ max_headers
    → Written hs bs
    → read_headers rules (length hs ∷ bs) ≡ ok hs []
read_back rules hs bs few written =
    rw append-nil at (read_headers-Written rules hs bs [] few written)

-- What a successful `Request.Encode` has checked.
pub encode_request-success :
    (r : Request) {b : Bytes}
    → encode_request r ≡ success b
    → (r.method ≡ method_get)
      × (bad_path_length r.path ≡ false)
      × (valid_utf8 r.path ≡ true)
      × (append_headers (request_front r) r.headers >>=? in_one_frame ≡ success b)
unfolding encode_request
encode_request-success r h = (ground arith, ground arith, ground arith, ground arith)

pub encode_request-fits :
    (r : Request) {b : Bytes} → encode_request r ≡ success b → length b ≤ max_frame_payload
encode_request-fits r e =
    let (method, path, valid, framed) = encode_request-success r e in
    let (few, fits, written) = headers_in_frame (request_front r) r.headers framed in fits

read_path-put :
    (path rest : Bytes)
    → bad_path_length path ≡ false
    → valid_utf8 path ≡ true
    → read_path (put_u16 (length path) ++ (path ++ rest)) ≡ ok path rest
unfolding read_path
read_path-put path rest good valid =
    rw (u16-put_u16 (length path) (path ++ rest) (ground arith))
      (rw good (rw (take_bytes-append (length path) path rest refl) (rw valid)))

read_request-Written :
    (path : Bytes) (hs : List Header) (bs : Bytes)
    → bad_path_length path ≡ false
    → valid_utf8 path ≡ true
    → length hs ≤ max_headers
    → Written hs bs
    → read_request (method_get ∷ (put_u16 (length path) ++ (path ++ (length hs ∷ bs))))
      ≡ ok (record { method = method_get; path = path; headers = hs }) []
unfolding read_request
read_request-Written path hs bs good valid few written = rw u8-cons (
    rw (read_path-put path (length hs ∷ bs) good valid)
      (rw (read_back strict_names hs bs few written) (rw finish-nil)))

-- A request that can be encoded is decoded to itself: method, path and headers in their order.
pub decode_request-encode_request :
    (r : Request) {b : Bytes} → encode_request r ≡ success b → decode_request b ≡ success r
unfolding decode_request
decode_request-encode_request r e =
    let (get, good, valid, rest) = encode_request-success r e in
    let (few, fits, (bs, is, written)) = headers_in_frame (request_front r) r.headers rest in
    let front = put_u16 (length r.path) in
    rw (is, get, append_assoc front r.path (length r.headers ∷ bs))
      (rw (read_request-Written r.path r.headers bs good valid few written))

encode_response-success :
    (r : Response) {b : Bytes}
    → encode_response r ≡ success b
    → (valid_status r.status ≡ true)
      × (append_headers (put_u16 r.status) r.headers >>=? in_one_frame ≡ success b)
unfolding encode_response
encode_response-success r h = (ground arith, ground arith)

valid_status-lt : (s : ℕ) → valid_status s ≡ true → s < 2 ^ 16
unfolding valid_status
valid_status-lt s h = ground arith

-- A response that can be encoded is decoded to itself.
pub decode_response-encode_response :
    (r : Response) {b : Bytes} → encode_response r ≡ success b → decode_response b ≡ success r
unfolding decode_response
decode_response-encode_response r e =
    let (valid, rest) = encode_response-success r e in
    let (few, fits, (bs, is, written)) = headers_in_frame (put_u16 r.status) r.headers rest in
    rw (is, u16-put_u16 r.status (length r.headers ∷ bs) (valid_status-lt r.status valid))
      (rw valid (rw (read_back structural_names r.headers bs few written) (rw finish-nil)))

-- A connection error with a 16-bit code that can be encoded is decoded to itself.
pub decode_conn_error-encode_conn_error :
    (e : ConnError) {b : Bytes}
    → e.code < 2 ^ 16
    → encode_conn_error e ≡ success b
    → decode_conn_error b ≡ success e
unfolding decode_conn_error encode_conn_error
decode_conn_error-encode_conn_error e {b} range h =
    let fits : 4 + length e.message ≤ max_frame_payload = ground arith in
    let size = put_u16 (length e.message) ++ e.message in
    let is : b ≡ put_u16 e.code ++ size = ground arith in
    rw (is, u16-put_u16 e.code size range)
      (rw (u16-put_u16 (length e.message) e.message (omega arith))
        (rw (whole e.message) (rw finish-nil)))
  where
    whole : (m : Bytes) → take_bytes (length m) m ≡ ok m []
    whole m = rw append-nil at (take_bytes-append (length m) m [] refl)
