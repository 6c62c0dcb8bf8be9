-- ===== src/Exchange/Session/Requests.antt =====
-- The bytes of one request of a client's calls.
use bhttp_1_http_in_binary.Base.{
  ℕ, ◌≤◌, ◌≡◌, ◌≢◌, refl, arith, List, [], ◌++◌, Bytes, Error, success, failure, length,
}
use bhttp_1_http_in_binary.Frame.{encode, max_payload, wire_header}
use bhttp_1_http_in_binary.Protocol.Headers.{Header}
use bhttp_1_http_in_binary.Protocol.Messages.{encode_request}
use bhttp_1_http_in_binary.Client.{get_request, request_frame}
use bhttp_1_http_in_binary.Exchange.Session.{request_bytes}

-- A request that is encoded fits in its frame.
pub encode-request_frame :
    (id : ℕ) (payload : Bytes)
    → id ≢ 0
    → length payload ≤ max_payload
    → (b : Bytes) × (encode (request_frame id payload) ≡ success b)
unfolding encode
encode-request_frame id payload nonzero fits =
    let f = request_frame id payload in
    (wire_header (length payload) f.typ f.flags id ++ payload, ground arith)

module _ (id : ℕ) (path : Bytes) (headers : List Header) where
  pub sent-request_bytes :
      {payload b : Bytes}
      → encode_request (get_request path headers) ≡ success payload
      → encode (request_frame id payload) ≡ success b
      → request_bytes id (path, headers) ≡ b
  unfolding request_bytes
  sent-request_bytes asked framed = rw (asked, framed) refl

  pub unsent-request_bytes :
      {e : Error}
      → encode_request (get_request path headers) ≡ failure e
      → request_bytes id (path, headers) ≡ []
  unfolding request_bytes
  unsent-request_bytes bad = rw bad refl
