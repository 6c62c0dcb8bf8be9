-- ===== src/Exchange/Sent.antt =====
-- The server's answers follow the contract: `sendStatus` and `sendFile` of
-- internal/server/request.go on a healthy connection.
pub mod Headers
pub mod Body
use bhttp_1_http_in_binary.Base.{
  ℕ, zero, suc, ◌+◌, ◌-◌, ◌≤◌, ◌<◌, ◌^◌, ◌≡◌, ◌≢◌, refl, sym, ap, ◌∙◌, arith, Bool, true, false,
  List, [], ◌∷◌, ◌++◌, append_assoc, Bytes, success, length, Exec, Outcome, ok, err, pure, ◌>>◌,
  ◌==◌, join, ltb, append-nil,
}
use bhttp_1_http_in_binary.Stream.{Source, Sink}
use bhttp_1_http_in_binary.Frame.{Frame, encode, needs_stream, max_payload, wire_header}
use bhttp_1_http_in_binary.Protocol.Headers.{Header}
use bhttp_1_http_in_binary.Protocol.Messages.{encode_response, valid_status}
use bhttp_1_http_in_binary.Conn.{Conn, write_conn}
use bhttp_1_http_in_binary.Server.Requests.{
  response_frame, send_response, send_status, send_file, send_body, status_headers, file_headers,
}
use bhttp_1_http_in_binary.Exchange.{AnswerWire, no_body, with_body}
use Headers.{encode_response-IsListed, status_headers-IsListed, file_headers-IsListed}
use Body.{Sends, IsHealthy, Carries, write_conn-Sends, send_body-Carries}

-- The code sends an answer.
abbrev pub Answers : ℕ → ℕ → List Header → Bytes → Conn → Outcome Conn (Unit {0}) → Type 0
Answers stream status headers content c o =
    (wire : Bytes) × AnswerWire stream status headers content wire × Sends c wire o

encode-response_frame :
    (stream : ℕ) (payload : Bytes) (end : Bool)
    → stream ≢ 0
    → length payload ≤ max_payload
    → (b : Bytes) × (encode (response_frame stream payload end) ≡ success b)
unfolding encode
encode-response_frame stream payload end nonzero fits =
    let f = response_frame stream payload end in
    (wire_header (length payload) f.typ f.flags stream ++ payload, ground arith)

-- `sendStatus` sends an answer with no body.
pub send_status-Answers :
    (stream status : ℕ) (c : Conn)
    → stream ≢ 0
    → valid_status status ≡ true
    → IsHealthy c
    → Answers stream status status_headers [] c (send_status stream status c)
unfolding send_status send_response
send_status-Answers stream status c nonzero valid h =
    let (payload, enc, fits) =
      encode_response-IsListed status status_headers valid (omega arith) status_headers-IsListed in
    let (b, e) = encode-response_frame stream payload true nonzero fits in
    (b, no_body payload enc e, rw enc (write_conn-Sends (response_frame stream payload true) c e h))

module _ (stream : ℕ) (ctype : Bytes) (nonzero : stream ≢ 0) (short : length ctype ≤ 255) where
  -- The RESPONSE frame of a file.
  file_front :
      (size : ℕ) (end : Bool)
      → size < 2 ^ 63
      → (payload : Bytes) × (b : Bytes) × (encode_response
            (record { status = 200; headers = file_headers ctype size })
          ≡ success payload)
        × (encode (response_frame stream payload end) ≡ success b)
  unfolding valid_status
  file_front size end range =
      let (payload, enc, fits) =
        encode_response-IsListed 200 (file_headers ctype size) refl (omega arith)
          (file_headers-IsListed ctype size short range) in
      let (b, e) = encode-response_frame stream payload end nonzero fits in (payload, b, enc, e)

  -- `sendFile` sends the answer 200 with as many bytes of the file as were announced, in the order
  -- of the file.
  pub send_file-Answers :
      (size : ℕ) (content extra : Bytes) (file : Source) (c : Conn)
      → size < 2 ^ 63
      → length content ≡ size
      → join file.chunks ≡ content ++ extra
      → IsHealthy c
      → Answers stream 200 (file_headers ctype size) content c (send_file stream file size ctype c)
  unfolding send_file send_response send_body
  send_file-Answers zero (x ∷ content) extra file c range len bytes h = absurd (omega arith)
  send_file-Answers zero [] extra file c range len bytes h =
      let (payload, b, enc, e) = file_front 0 true range in
      let one = write_conn-Sends (response_frame stream payload true) c e h in
      (
        b,
        no_body payload enc e,
        record {
          sink = one.sink;
          result = rw enc (rw one.result);
          written = one.written;
          healthy = one.healthy;
        },
      )
  send_file-Answers (suc n) content extra file c range len bytes h =
      let some_left : (suc n == 0) ≡ false = ground arith in
      let (payload, b, enc, e) = file_front (suc n) false range in
      let one = write_conn-Sends (response_frame stream payload false) c e h in
      let (wire', w, two) =
        send_body-Carries n stream n content extra file (record c { sink = one.sink }) nonzero
          (omega arith) len bytes one.healthy in
      (
        b ++ wire',
        with_body payload b wire' enc e w refl,
        record {
          sink = two.sink;
          result = rw enc (rw some_left (rw one.result two.result));
          written =
              two.written
              ∙ ap (λ (x : Bytes). x ++ wire') one.written
              ∙ append_assoc c.sink.written b wire';
          healthy = two.healthy;
        },
      )
