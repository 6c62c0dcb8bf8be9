-- ===== src/Exchange/Pipeline.antt =====
-- Requests behind one another on a connection, which `handle` answers in their order.
pub mod Steady
pub mod Rounds
use bhttp_1_http_in_binary.Base.{
  ℕ, zero, suc, ◌+◌, ◌<◌, ◌^◌, ◌≡◌, ◌≢◌, refl, sym, ap, ◌∙◌, arith, true, List, [], ◌∷◌, ◌++◌,
  append_assoc, append-nil, Bytes, success, length, length-append, Outcome, Error, ok, err, eof,
  join, Bool-cases, Result-cases, inl, inr, ◌==◌,
}
use mathlib.Core.List.{map}
use bhttp_1_http_in_binary.Stream.{Source, short_read}
use bhttp_1_http_in_binary.Stream.Flat.{flatten}
use bhttp_1_http_in_binary.Stream.Simulation.{Simulates-err}
use bhttp_1_http_in_binary.Frame.{Frame, IsFrame, encode, is_known, needs_stream, type_request}
use bhttp_1_http_in_binary.Frame.Reader.{header_error}
use bhttp_1_http_in_binary.Frame.Reader.Equations.{at_bytes, read-Simulates, read_flat-short}
use bhttp_1_http_in_binary.Frame.RoundTrip.{read-encode, encode-success, length-encode}
use bhttp_1_http_in_binary.Protocol.Headers.{Header}
use bhttp_1_http_in_binary.Protocol.Messages.{decode_request, valid_status}
use bhttp_1_http_in_binary.Conn.{Conn, read_conn}
use bhttp_1_http_in_binary.Server.Paths.{FilePath}
use bhttp_1_http_in_binary.Server.Resolver.{FileInfo, File, FileSystem, open_path}
use bhttp_1_http_in_binary.Server.Mime.{content_type, length-content_type}
use bhttp_1_http_in_binary.Server.Requests.{
  serve_request, answer_request, wrong_flags, file_headers, status_headers, send_status,
}
use bhttp_1_http_in_binary.Server.Loop.{handle, handle_loop, dispatch, on_read_error}
use bhttp_1_http_in_binary.Exchange.{AnswerWire}
use bhttp_1_http_in_binary.Exchange.Sent.{Answers, send_file-Answers, send_status-Answers}
use bhttp_1_http_in_binary.Exchange.Sent.Body.{IsHealthy, Sends}
use bhttp_1_http_in_binary.Exchange.Bodies.{to_come}
use bhttp_1_http_in_binary.Exchange.Fetch.{
  miss_status, answer_miss-miss_status, valid_status-miss_status,
}
use bhttp_1_http_in_binary.Exchange.Pipeline.Steady.{IsSteady, serve_request-Answers}
use bhttp_1_http_in_binary.Exchange.Pipeline.Rounds.{handle_loop-end, handle_loop-serve}

-- The answers, one for each of the streams.
pub data Answered : List ℕ → Bytes → Type 0 where
  none_left : Answered [] []
  next_answer :
      {ids : List ℕ} {wire : Bytes} (id status : ℕ) (hs : List Header) (content b wire' : Bytes)
      → AnswerWire id status hs content b
      → Answered ids wire'
      → wire ≡ b ++ wire'
      → Answered (id ∷ ids) wire

-- The requests, encoded one after the other.
abbrev pub Requests : List Frame → Bytes → Type 0
Requests [] bs = bs ≡ []
Requests (q ∷ qs) bs =
    (b : Bytes) × (rest : Bytes) × IsFrame q
    × (q.typ ≡ type_request)
    × (encode q ≡ success b)
    × (bs ≡ b ++ rest)
    × Requests qs rest

module _ (fs : FileSystem) (root : FilePath) (steady : IsSteady fs root) where
  -- A round with a request answers it and goes on behind it.
  handle_loop-request :
      (fuel : ℕ) (q : Frame) {b : Bytes} (rest : Bytes) (c : Conn)
      → IsFrame q
      → q.typ ≡ type_request
      → encode q ≡ success b
      → to_come c ≡ b ++ rest
      → IsHealthy c
      → (u : Source) × (join u.chunks ≡ rest)
        × (u.fault ≡ c.source.fault)
        × ((status : ℕ) × (hs : List Header) × (content : Bytes) × (wire : Bytes) × AnswerWire
              q.stream_id status hs content wire
            × ((sends : Sends
                  (record c { source = u })
                  wire
                  (serve_request fs root q (record c { source = u })))
                × (handle_loop fs root (suc fuel) c
                    ≡ handle_loop fs root fuel (record c { source = u; sink = sends.sink }))))
  unfolding read_conn
  handle_loop-request fuel q rest c is_frame is_request e bytes h =
      let known : is_known q.typ ≡ true = ap is_known is_request ∙ (unfold is_known in refl) in
      let needs : needs_stream q.typ ≡ true =
        ap needs_stream is_request ∙ (unfold needs_stream in refl) in
      let (fits, has_stream, out) = encode-success q e in
      let (u, r, left, fault) = read-encode q c.source rest is_frame known e bytes in
      let got : read_conn c ≡ ok q (record c { source = u }) = rw r refl in
      let (status, hs, content, (wire, w, sends)) =
        serve_request-Answers fs root steady q (record c { source = u }) (has_stream needs) h in
      (
        u,
        left,
        fault,
        (
          status,
          hs,
          content,
          wire,
          w,
          (sends, handle_loop-serve fs root fuel q c u got is_request sends),
        ),
      )

  -- The loop behind some requests: they are answered, and it goes on with what follows them.
  pub handle_loop-Requests :
      (fuel : ℕ) (qs : List Frame) (bs tail : Bytes) (c : Conn)
      → Requests qs bs
      → to_come c ≡ bs ++ tail
      → IsHealthy c
      → length bs + length tail < fuel
      → (wire : Bytes) × (fuel' : ℕ) × (c' : Conn) × (handle_loop fs root fuel c
          ≡ handle_loop fs root fuel' c')
        × (to_come c' ≡ tail)
        × (c'.source.fault ≡ c.source.fault)
        × (length tail < fuel')
        × (c'.sink.written ≡ c.sink.written ++ wire)
        × IsHealthy c'
        × Answered (map (λ q. q.stream_id) qs) wire
  handle_loop-Requests zero qs bs tail c asks bytes h enough = absurd (omega arith)
  handle_loop-Requests (suc fuel) [] bs tail c asks bytes h enough = (
    [],
    suc fuel,
    c,
    refl,
    bytes ∙ ap (λ (x : Bytes). x ++ tail) asks,
    refl,
    omega (arith, enough),
    sym (append-nil c.sink.written),
    h,
    none_left,
  )
  handle_loop-Requests (suc fuel) (q ∷ qs) bs tail c (b, rest, is_frame, is_request, e, split, asks)
        bytes h enough =
      let (u, left, fault, (status, hs, content, wire, w, (sends, one))) =
        handle_loop-request fuel q (rest ++ tail) c is_frame is_request e
          (bytes ∙ ap (λ (x : Bytes). x ++ tail) split ∙ append_assoc b rest tail) h in
      let (wire', fuel', c', later, left', fault', enough', out, h', more) =
        handle_loop-Requests fuel qs rest tail (record c { source = u; sink = sends.sink }) asks
          left sends.healthy
          (omega (arith, ap length split, length-append b rest, length-encode q e)) in
      (
        wire ++ wire',
        fuel',
        c',
        one ∙ later,
        left',
        fault' ∙ fault,
        enough',
        out ∙ ap (λ (x : Bytes). x ++ wire') sends.written ∙ append_assoc c.sink.written wire wire',
        h',
        next_answer q.stream_id status hs content wire wire' w more refl,
      )

  -- Requests one behind the other, well formed or not, in whatever pieces, on a healthy connection
  -- that then ends: handle returns, and has written one whole answer for each, on its stream, in
  -- the order of the requests, and nothing else, provided that no file ends early.
  pub handle-Answered :
      (qs : List Frame) (bs : Bytes) (c : Conn)
      → Requests qs bs
      → to_come c ≡ bs
      → c.source.fault ≡ eof
      → IsHealthy c
      → (wire : Bytes) × (c' : Conn) × (handle fs root c ≡ ok tt c')
        × (c'.sink.written ≡ c.sink.written ++ wire)
        × Answered (map (λ q. q.stream_id) qs) wire
  unfolding handle
  handle-Answered qs bs c asks bytes ends h =
      let (wire, fuel', c', later, left, fault, enough, out, h', answers) =
        handle_loop-Requests (suc (length (to_come c))) qs bs [] c asks
          (bytes ∙ sym (append-nil bs)) h (omega (arith, ap length bytes)) in
      let (c2, ended, same) = handle_loop-end fs root fuel' c' left (fault ∙ ends) enough in
      (wire, c2, later ∙ ended, rw same out, answers)
