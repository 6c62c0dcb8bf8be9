-- ===== src/Exchange/Received.antt =====
-- The client on an answer that follows the contract.
use bhttp_1_http_in_binary.Base.{
  ℕ, suc, ◌+◌, ◌<◌, ◌^◌, ◌≡◌, refl, sym, ap, ◌∙◌, arith, Bool, true, false, List, [], ◌++◌,
  append-nil, append_assoc, Bytes, Outcome, ok, after, success, length, length-append, join, pure,
  from_result, ◌>>◌, inr,
}
use bhttp_1_http_in_binary.Stream.{Source, Sink}
use bhttp_1_http_in_binary.Frame.{encode, type_response}
use bhttp_1_http_in_binary.Protocol.Headers.{Header}
use bhttp_1_http_in_binary.Protocol.Messages.{encode_response}
use bhttp_1_http_in_binary.Protocol.Messages.RoundTrip.{decode_response-encode_response}
use bhttp_1_http_in_binary.Server.Requests.{response_frame}
use bhttp_1_http_in_binary.Client.{Download, Answer, read_rest, read_answer}
use bhttp_1_http_in_binary.Client.Lengths.{check_length}
use bhttp_1_http_in_binary.Exchange.{AnswerWire, no_body, with_body}
use bhttp_1_http_in_binary.Exchange.Bodies.{
  to_come, IsOpen, read_frame-encode, expect_match, response_frame-IsFrame, is_known-type_response,
  has_flag-end, read_body-BodyWire,
}

abbrev pub answer_of : ℕ → List Header → Bytes → Answer
answer_of status headers content = record {
  status = status;
  headers = headers;
  body_bytes = length content;
}

-- The client has the answer, its whole body has been written, and what follows is still to come.
pub record Receives (d : Download) (content rest : Bytes) (a : Answer) (o : Outcome Download Answer)
    : Type 0 where
  pub source : Source
  pub body : Sink
  pub result : o ≡ ok a (record { conn = record d.conn { source = source }; body = body })
  pub written : body.written ≡ d.body.written ++ content
  pub left : join source.chunks ≡ rest
  pub is_open : IsOpen body

module _ (id status : ℕ) (headers : List Header) (d : Download) (rest : Bytes)
    (range : id < 2 ^ 32) where
  -- Up to the body, whether there is one or not.
  read_answer-front :
      (payload : Bytes) (end : Bool) {b more_bytes : Bytes}
      → encode_response (record { status = status; headers = headers }) ≡ success payload
      → encode (response_frame id payload end) ≡ success b
      → to_come d.conn ≡ b ++ more_bytes
      → (u : Source) × (join u.chunks ≡ more_bytes)
        × (read_answer id d
            ≡ after
                (read_rest id
                  (response_frame id payload end)
                  (record d { conn = record d.conn { source = u } }))
                (λ got.
                  from_result (check_length headers got)
                  >> pure (record { status = status; headers = headers; body_bytes = got })))
  unfolding read_answer
  read_answer-front payload end {b} {more_bytes} enc e bytes =
      let f = response_frame id payload end in
      let (u, r, left) =
        read_frame-encode f d.conn more_bytes (response_frame-IsFrame id payload range end)
          is_known-type_response e bytes in
      (
        u,
        left,
        rw r (
            rw (expect_match f type_response id (record d.conn { source = u }) (inr refl) refl refl)
              (rw (
                decode_response-encode_response (record { status = status; headers = headers })
                  enc))),
      )

  -- An answer that follows the contract, with lengths that agree, is received as it was sent.
  pub read_answer-AnswerWire :
      {content wire : Bytes}
      → IsOpen d.body
      → AnswerWire id status headers content wire
      → check_length headers (length content) ≡ success tt
      → to_come d.conn ≡ wire ++ rest
      → Receives d content rest (answer_of status headers content) (read_answer id d)
  unfolding read_rest
  read_answer-AnswerWire ready (no_body payload enc e) agree bytes =
      let (u, left, front) = read_answer-front payload true enc e bytes in
      record {
        source = u;
        body = d.body;
        result = front ∙ rw (has_flag-end true) (rw agree);
        written = sym (append-nil d.body.written);
        left = left;
        is_open = ready;
      }
  read_answer-AnswerWire ready (with_body {content} payload b wire' enc e w is) agree bytes =
      let (u, left, front) =
        read_answer-front payload false enc e
          (bytes ∙ ap (λ (x : Bytes). x ++ rest) is ∙ append_assoc b wire' rest) in
      let d' = record d { conn = record d.conn { source = u } } in
      let (u', left', body) =
        read_body-BodyWire (suc (length (join u.chunks))) id 0 d' rest range ready w
          (omega (arith, ap length left, length-append wire' rest)) left in
      let count : 0 + length content ≡ length content = omega arith in
      record {
        source = u';
        body = record { written = d.body.written ++ content; grants = [] };
        result = front ∙ rw (has_flag-end false) (rw body (rw count (rw agree)));
        written = refl;
        left = left';
        is_open = refl;
      }
