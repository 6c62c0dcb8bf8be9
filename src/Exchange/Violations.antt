-- ===== src/Exchange/Violations.antt =====
-- Bytes that break the protocol: what the server reports, and that it is the last thing it says.
use bhttp_1_http_in_binary.Base.{
  ℕ, zero, suc, ◌≤◌, ◌<◌, ◌≡◌, ◌≢◌, refl, ap, ◌∙◌, arith, true, List, ◌++◌, append_assoc, Bytes,
  success, length, length-append, Error, ok, err, oversize, stream_zero, join, put_u16,
  Outcome-cases, inl, inr,
}
use mathlib.Core.List.{map}
use bhttp_1_http_in_binary.Stream.{Sink, discard}
use bhttp_1_http_in_binary.Frame.{Frame, encode, needs_stream, max_payload, type_error, wire_header}
use bhttp_1_http_in_binary.Frame.Faults.{IsFault, read-IsFault}
use bhttp_1_http_in_binary.Protocol.Headers.Write.{length-put_u16}
use bhttp_1_http_in_binary.Protocol.Messages.{
  encode_conn_error, code_frame_too_large, code_invalid_stream_id,
}
use bhttp_1_http_in_binary.Conn.{Conn, read_conn, report_error, error_frame, drain, drain_bytes}
use bhttp_1_http_in_binary.Server.Paths.{FilePath}
use bhttp_1_http_in_binary.Server.Resolver.{FileSystem}
use bhttp_1_http_in_binary.Server.Loop.{
  handle, handle_loop, on_read_error, stream_zero_message, too_large_message,
}
use bhttp_1_http_in_binary.Exchange.Sent.Body.{IsHealthy, write_conn-Sends}
use bhttp_1_http_in_binary.Exchange.Bodies.{to_come}
use bhttp_1_http_in_binary.Exchange.Pipeline.Steady.{IsSteady}
use bhttp_1_http_in_binary.Exchange.Pipeline.{Requests, Answered, handle_loop-Requests}

-- The code and the message of the report on a fault.
pub data IsReported : Bytes → ℕ → Bytes → Type 0 where
  reports_size :
      {bs : Bytes} (t n : ℕ)
      → IsFault bs (oversize t n)
      → t ≢ type_error
      → IsReported bs code_frame_too_large too_large_message
  reports_stream :
      {bs : Bytes}
      → IsFault bs stream_zero
      → IsReported bs code_invalid_stream_id stream_zero_message

-- The bytes of an ERROR frame.
abbrev pub IsErrorFrame : ℕ → Bytes → Bytes → Type 0
IsErrorFrame code message b =
    (payload : Bytes) × (encode_conn_error (record { code = code; message = message })
      ≡ success payload)
    × (encode (error_frame payload) ≡ success b)

encode-error_frame :
    (payload : Bytes)
    → length payload ≤ max_payload
    → encode (error_frame payload)
      ≡ success (wire_header (length payload) type_error 0 0 ++ payload)
unfolding encode needs_stream
encode-error_frame payload fits = ground arith

drain_sink : (c : Conn) → (drain c).sink ≡ c.sink
unfolding drain
drain_sink c = elim (Outcome-cases (discard drain_bytes c.source.fault c.source.chunks)) [
  | inl (a, s, r) ↦ rw r refl
  | inr (e, s, r) ↦ rw r refl
]

-- On a healthy connection the report is one ERROR frame.
report_error-sends :
    (code : ℕ) (message : Bytes) (c : Conn)
    → length message ≤ 255
    → IsHealthy c
    → (b : Bytes) × IsErrorFrame code message b
      × ((report_error code message c).sink.written ≡ c.sink.written ++ b)
unfolding report_error
report_error-sends code message c short h =
    let payload = put_u16 code ++ (put_u16 (length message) ++ message) in
    let small : encode_conn_error (record { code = code; message = message }) ≡ success payload =
      unfold encode_conn_error in ground arith in
    let b = wire_header (length payload) type_error 0 0 ++ payload in
    let fits : length payload ≤ max_payload = omega (
      arith,
      length-append (put_u16 code) (put_u16 (length message) ++ message),
      length-append (put_u16 (length message)) message,
      length-put_u16 code,
      length-put_u16 (length message),
    ) in
    let framed = encode-error_frame payload fits in
    let sends = write_conn-Sends (error_frame payload) c framed h in
    (b, (payload, small, framed), rw small (rw sends.result (rw drain_sink sends.written)))

on_read_error-reports :
    (bs : Bytes) (code : ℕ) (message : Bytes) (c : Conn)
    → IsReported bs code message
    → join c.source.chunks ≡ bs
    → (e : Error) × (c' : Conn) × (read_conn c ≡ err e c')
      × (c'.sink ≡ c.sink)
      × ((d : Conn) → on_read_error e d ≡ report_error code message d)
unfolding read_conn on_read_error
on_read_error-reports bs code message c (reports_size t n fault other) same =
    let (u, r) = read-IsFault c.source {e = oversize t n} (rw same fault) in
    (oversize t n, record c { source = u }, rw r refl, refl, λ d. ground arith)
on_read_error-reports bs code message c (reports_stream fault) same =
    let (u, r) = read-IsFault c.source {e = stream_zero} (rw same fault) in
    (stream_zero, record c { source = u }, rw r refl, refl, λ d. refl)

length-message :
    (bs : Bytes) (code : ℕ) (message : Bytes) → IsReported bs code message → length message ≤ 255
length-message bs code message (reports_size t n fault other) = omega arith
length-message bs code message (reports_stream fault) = omega arith

module _ (fs : FileSystem) (root : FilePath) where
  handle_loop-reports :
      (fuel : ℕ) (bs : Bytes) (code : ℕ) (message : Bytes) (c : Conn)
      → IsReported bs code message
      → to_come c ≡ bs
      → IsHealthy c
      → 0 < fuel
      → (b : Bytes) × (c' : Conn) × IsErrorFrame code message b
        × (handle_loop fs root fuel c ≡ ok tt c')
        × (c'.sink.written ≡ c.sink.written ++ b)
        × (c'.closed ≡ true)
  unfolding handle_loop
  handle_loop-reports zero bs code message c why bytes h enough = absurd (omega arith)
  handle_loop-reports (suc fuel) bs code message c why bytes h enough =
      let (e, c1, r, same, reports) = on_read_error-reports bs code message c why bytes in
      let (b, is_error, out) =
        report_error-sends code message c1 (length-message bs code message why) (rw same h) in
      (
        b,
        record (report_error code message c1) { closed = true },
        is_error,
        rw r (rw reports refl),
        out ∙ ap (λ (w : Sink). w.written ++ b) same,
        refl,
      )

  -- Requests, and behind them a frame that is too large and no ERROR frame, or one that must not
  -- be on stream 0: on a healthy connection, and if no file ends early, the requests are answered
  -- in their order, then one ERROR frame says what is wrong, and nothing follows it on the
  -- connection, which is closed.
  pub handle-reports :
      (qs : List Frame) (bs tail : Bytes) (code : ℕ) (message : Bytes) (c : Conn)
      → IsSteady fs root
      → Requests qs bs
      → IsReported tail code message
      → to_come c ≡ bs ++ tail
      → IsHealthy c
      → (wire : Bytes) × (b : Bytes) × (c' : Conn) × Answered (map (λ q. q.stream_id) qs) wire
        × IsErrorFrame code message b
        × (handle fs root c ≡ ok tt c')
        × (c'.sink.written ≡ c.sink.written ++ (wire ++ b))
        × (c'.closed ≡ true)
  unfolding handle
  handle-reports qs bs tail code message c steady asks why bytes h =
      let (wire, fuel', c', later, left, fault, enough, out, h', answers) =
        handle_loop-Requests fs root steady (suc (length (to_come c))) qs bs tail c asks bytes h
          (omega (arith, ap length bytes, length-append bs tail)) in
      let (b, c2, is_error, ends, out', closed) =
        handle_loop-reports fuel' tail code message c' why left h' (omega arith) in
      (
        wire,
        b,
        c2,
        answers,
        is_error,
        later ∙ ends,
        out' ∙ ap (λ (x : Bytes). x ++ b) out ∙ append_assoc c.sink.written wire b,
        closed,
      )
