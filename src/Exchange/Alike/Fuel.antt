-- ===== src/Exchange/Alike/Fuel.antt =====
-- The loop of readResponse over DATA frames: more fuel than the bytes that are to come makes no
-- difference.
use bhttp_1_http_in_binary.Base.{
  ℕ, zero, suc, ◌+◌, ◌≡◌, ◌<◌, refl, arith, Bool-cases, inl, inr, Error, ok, err, Outcome-cases,
  length, join, eof, truncated, stream_zero, oversize,
}
use bhttp_1_http_in_binary.Stream.{write_once}
use bhttp_1_http_in_binary.Frame.{Frame, type_data, flag_end_stream, has_flag}
use bhttp_1_http_in_binary.Frame.Reader.{read}
use bhttp_1_http_in_binary.Frame.Progress.{read-Gained}
use bhttp_1_http_in_binary.Conn.{Conn, read_conn}
use bhttp_1_http_in_binary.Client.{frame_fault, read_frame, expect, Download, read_body, bytes_left}

frame_fault_fails : (e : Error) (c : Conn) → (x : Error) × (d : Conn) × (frame_fault e c ≡ err x d)
unfolding frame_fault
frame_fault_fails stream_zero c = (_, _, refl)
frame_fault_fails (oversize typ n) c = (_, _, refl)
frame_fault_fails eof c = (_, _, refl)
frame_fault_fails truncated c = (_, _, refl)
frame_fault_fails e c = (_, _, refl)

-- A frame that was read takes bytes off the stream.
read_frame-shorter :
    (c c' : Conn) (f : Frame)
    → read_frame c ≡ ok f c'
    → length (join c'.source.chunks) < length (join c.source.chunks)
unfolding read_frame read_conn
read_frame-shorter c c' f e = elim (Outcome-cases (read c.source)) [
  | inl (g, u, r) ↦
      let same : ok g (record c { source = u }) ≡ ok f c' = rw r at e in
      let is : record c { source = u } ≡ c' = cc in
      rw (← is) (omega (arith, (read-Gained c.source u g r).shorter))
  | inr (x, u, r) ↦
      let (y, d, bad) = frame_fault_fails x (record c { source = u }) in
      absurd (cc (bad, (rw r at e)))
]

expect_keeps : (f : Frame) (want id : ℕ) (c c' : Conn) → expect f want id c ≡ ok tt c' → c ≡ c'
unfolding expect
expect_keeps f want id c c' e = ground arith

pub read_body_enough :
    (n m id got : ℕ) (d : Download)
    → bytes_left d < n
    → bytes_left d < m
    → read_body n id got d ≡ read_body m id got d
unfolding read_body
read_body_enough zero m id got d h k = absurd (omega arith)
read_body_enough (suc n) zero id got d h k = absurd (omega arith)
read_body_enough (suc n) (suc m) id got d h k = elim (Outcome-cases (read_frame d.conn)) [
  | inr (x, c, e) ↦ rw e refl
  | inl (f, c, e) ↦
      let fewer = read_frame-shorter d.conn c f e in
      elim (Outcome-cases (expect f type_data id c)) [
        | inr (x, c', e') ↦ rw (e, e') refl
        | inl (a, c', e') ↦
            let same : c ≡ c' = expect_keeps f type_data id c c' e' in
            elim (Outcome-cases (write_once f.payload d.body)) [
              | inr (x, w, q) ↦ rw (e, e', q) refl
              | inl (b, w, q) ↦ elim (Bool-cases (has_flag f.flags flag_end_stream)) [
                | inl last ↦ rw (e, e', q, last) refl
                | inr more ↦
                    let less : length (join c'.source.chunks) < length (join d.conn.source.chunks) =
                      rw (← same) fewer in
                    rw (e, e', q, more)
                      (read_body_enough n m id (got + length f.payload)
                        (record { conn = c'; body = w }) (omega arith) (omega arith))
              ]
            ]
      ]
]
