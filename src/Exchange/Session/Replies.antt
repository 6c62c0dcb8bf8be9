-- ===== src/Exchange/Session/Replies.antt =====
-- What the server writes for a client's calls.
use bhttp_1_http_in_binary.Base.{
  ℕ, zero, suc, ◌+◌, ◌≤◌, ◌<◌, ◌^◌, ◌≡◌, ◌≢◌, refl, sym, ap, ◌∙◌, arith, List, [], ◌∷◌, ◌++◌,
  append_assoc, append-nil, Bytes, Error, eof, ok, success, failure, Result-cases, inl, inr, length,
  length-append,
}
use bhttp_1_http_in_binary.Stream.{Source, Sink}
use bhttp_1_http_in_binary.Frame.{encode}
use bhttp_1_http_in_binary.Frame.RoundTrip.{length-encode}
use bhttp_1_http_in_binary.Protocol.Headers.{Header}
use bhttp_1_http_in_binary.Protocol.Messages.{encode_request}
use bhttp_1_http_in_binary.Protocol.Messages.RoundTrip.{encode_request-fits}
use bhttp_1_http_in_binary.Conn.{Conn, read_conn}
use bhttp_1_http_in_binary.Server.Paths.{FilePath}
use bhttp_1_http_in_binary.Server.Resolver.{FileSystem}
use bhttp_1_http_in_binary.Server.Requests.{serve_request, answer_request}
use bhttp_1_http_in_binary.Server.Loop.{handle, handle_loop}
use bhttp_1_http_in_binary.Client.{get_request, request_frame}
use bhttp_1_http_in_binary.Exchange.Sent.Body.{IsHealthy, Sends}
use bhttp_1_http_in_binary.Exchange.Bodies.{to_come}
use bhttp_1_http_in_binary.Exchange.Fetch.{read_conn-request, serve_request-request}
use bhttp_1_http_in_binary.Exchange.Pipeline.Steady.{IsSteady}
use bhttp_1_http_in_binary.Exchange.Pipeline.Rounds.{handle_loop-end, handle_loop-serve}
use bhttp_1_http_in_binary.Exchange.Session.{
  Asking, request_bytes, requests_from, IsAnswer, answer_request-IsAnswer,
}
use bhttp_1_http_in_binary.Exchange.Session.Requests.{
  encode-request_frame, sent-request_bytes, unsent-request_bytes,
}

module _ (fs : FileSystem) (root : FilePath) where
  -- What the server makes of a call, which it may never hear of.
  pub data Replied (id : ℕ) (path : Bytes) (headers : List Header) (wire : Bytes) : Type 0 where
    never_asked :
        (e : Error)
        → encode_request (get_request path headers) ≡ failure e
        → wire ≡ []
        → Replied id path headers wire
    replied :
        (payload request : Bytes)
        → encode_request (get_request path headers) ≡ success payload
        → encode (request_frame id payload) ≡ success request
        → IsAnswer fs root id path wire
        → Replied id path headers wire

  -- The replies behind one another.
  abbrev pub Replies : ℕ → List Asking → Bytes → Type 0
  Replies id [] wire = wire ≡ []
  Replies id ((path, headers) ∷ calls) wire =
      (one : Bytes) × (rest : Bytes) × (wire ≡ one ++ rest)
      × Replied id path headers one
      × Replies (suc id) calls rest

  -- The server's loop ends, and has written the replies.
  pub record Finishes (id : ℕ) (calls : List Asking) (s : Conn) (fuel : ℕ) : Type 0 where
    pub wire : Bytes
    pub state : Conn
    pub ends : handle_loop fs root fuel s ≡ ok tt state
    pub written : state.sink.written ≡ s.sink.written ++ wire
    pub replies : Replies id calls wire

  no_calls :
      (id : ℕ) (s : Conn) (fuel : ℕ)
      → to_come s ≡ []
      → s.source.fault ≡ eof
      → 0 < fuel
      → Finishes id [] s fuel
  no_calls id s fuel empty fault enough =
      let (c, ends, same) = handle_loop-end fs root fuel s empty fault enough in
      record {
        wire = [];
        state = c;
        ends = ends;
        written = ap (λ (w : Sink). w.written) same ∙ sym (append-nil s.sink.written);
        replies = refl;
      }

  skip_call :
      (id : ℕ) (path : Bytes) (headers : List Header) (calls : List Asking) (s : Conn) (fuel : ℕ)
      (e : Error)
      → encode_request (get_request path headers) ≡ failure e
      → Finishes (suc id) calls s fuel
      → Finishes id ((path, headers) ∷ calls) s fuel
  skip_call id path headers calls s fuel e bad later = record {
    wire = later.wire;
    state = later.state;
    ends = later.ends;
    written = later.written;
    replies = ([], later.wire, refl, never_asked e bad refl, later.replies);
  }

  serve_call :
      (id : ℕ) (path : Bytes) (headers : List Header) (calls : List Asking) (s : Conn) (fuel : ℕ)
      {payload request : Bytes} (u : Source) (wire : Bytes)
      → id < 2 ^ 32
      → encode_request (get_request path headers) ≡ success payload
      → encode (request_frame id payload) ≡ success request
      → read_conn s ≡ ok (request_frame id payload) (record s { source = u })
      → IsAnswer fs root id path wire
      → (sends : Sends
          (record s { source = u })
          wire
          (answer_request fs root id (get_request path headers) (record s { source = u })))
      → Finishes (suc id) calls (record s { source = u; sink = sends.sink }) fuel
      → Finishes id ((path, headers) ∷ calls) s (suc fuel)
  serve_call id path headers calls s fuel {payload} {request} u wire range asked framed r answer
        sends later =
      let same =
        serve_request-request fs root path headers id range asked framed
          (record s { source = u }) in
      let all : Sends (record s { source = u }) wire
          (serve_request fs root (request_frame id payload) (record s { source = u })) =
        record {
          sink = sends.sink;
          result = same ∙ sends.result;
          written = sends.written;
          healthy = sends.healthy;
        } in
      record {
        wire = wire ++ later.wire;
        state = later.state;
        ends =
            handle_loop-serve fs root fuel (request_frame id payload) s u r refl all ∙ later.ends;
        written =
            later.written
            ∙ ap (λ (x : Bytes). x ++ later.wire) sends.written
            ∙ append_assoc s.sink.written wire later.wire;
        replies =
            (wire, later.wire, refl, replied payload request asked framed answer, later.replies);
      }

  module _ (steady : IsSteady fs root) where
    handle_loop-Finishes :
        (fuel : ℕ) (calls : List Asking) (id : ℕ) (s : Conn)
        → id ≢ 0
        → id + length calls ≤ 2 ^ 32
        → to_come s ≡ requests_from id calls
        → s.source.fault ≡ eof
        → IsHealthy s
        → length (requests_from id calls) < fuel
        → Finishes id calls s fuel
    unfolding requests_from
    handle_loop-Finishes fuel [] id s nonzero range bytes fault h enough =
        no_calls id s fuel bytes fault (omega arith)
    handle_loop-Finishes zero (call ∷ calls) id s nonzero range bytes fault h enough =
        absurd (omega arith)
    handle_loop-Finishes (suc fuel) ((path, headers) ∷ calls) id s nonzero range bytes fault h
          enough =
        let more = requests_from (suc id) calls in
        elim (Result-cases (encode_request (get_request path headers))) [
          | inr (e, bad) ↦
              let none : request_bytes id (path, headers) ++ more ≡ more =
                rw (unsent-request_bytes id path headers bad) refl in
              skip_call id path headers calls s (suc fuel) e bad (
                handle_loop-Finishes (suc fuel) calls (suc id) s (omega arith)
                  (omega (arith, range)) (bytes ∙ none) fault h
                  (omega (arith, enough, ap length none)))
          | inl (payload, asked) ↦
              let fits = encode_request-fits (get_request path headers) asked in
              let (request, framed) = encode-request_frame id payload nonzero fits in
              let sent : request_bytes id (path, headers) ++ more ≡ request ++ more =
                rw (sent-request_bytes id path headers asked framed) refl in
              let in_range : id < 2 ^ 32 = omega (arith, range) in
              let (u, left, same, r) =
                read_conn-request fs root path headers id in_range asked framed s more
                  (bytes ∙ sent) in
              let (wire, answer, sends) =
                answer_request-IsAnswer fs root id path headers (record s { source = u }) steady
                  nonzero h in
              serve_call id path headers calls s fuel u wire in_range asked framed r answer sends (
                handle_loop-Finishes fuel calls (suc id)
                  (record s { source = u; sink = sends.sink }) (omega arith) (omega (arith, range))
                  left (same ∙ fault) sends.healthy
                  (omega (
                    arith,
                    enough,
                    ap length sent,
                    length-append request more,
                    length-encode (request_frame id payload) framed,
                  )))
        ]

    -- The whole connection.
    pub handle-Replies :
        (calls : List Asking) (id : ℕ) (s : Conn)
        → id ≢ 0
        → id + length calls ≤ 2 ^ 32
        → to_come s ≡ requests_from id calls
        → s.source.fault ≡ eof
        → IsHealthy s
        → (wire : Bytes) × (s' : Conn) × (handle fs root s ≡ ok tt s')
          × (s'.sink.written ≡ s.sink.written ++ wire)
          × Replies id calls wire
    unfolding handle
    handle-Replies calls id s nonzero range bytes fault h =
        let done =
          handle_loop-Finishes (suc (length (to_come s))) calls id s nonzero range bytes fault h
            (omega (arith, ap length bytes)) in
        (done.wire, done.state, done.ends, done.written, done.replies)
