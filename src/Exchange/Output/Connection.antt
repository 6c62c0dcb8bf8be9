-- ===== src/Exchange/Output/Connection.antt =====
-- What `handle` writes, whatever arrives on the connection, on the terms of its writes.
use bhttp_1_http_in_binary.Base.{
  ℕ, zero, suc, ◌≡◌, refl, ap, ◌∙◌, sym, true, Bool-cases, inl, inr, [], ◌∷◌, ◌++◌, append-nil,
  Bytes, join, success, Result-cases, Error, stream_zero, oversize, body_error, Outcome, ok, err,
  Exec, Outcome-cases, fold_outcome, map_state, state_of, ◌==◌, ◌||◌, length, false,
}
use bhttp_1_http_in_binary.Stream.{Source, discard}
use bhttp_1_http_in_binary.Frame.{Frame, encode, type_request, type_response, type_data, type_error}
use bhttp_1_http_in_binary.Frame.Reader.{read}
use bhttp_1_http_in_binary.Protocol.Messages.{
  encode_conn_error, code_frame_too_large, code_invalid_stream_id, code_protocol_error,
}
use bhttp_1_http_in_binary.Conn.{
  Conn, read_conn, write_conn, drain, drain_bytes, error_frame, report_error,
}
use bhttp_1_http_in_binary.Server.Paths.{FilePath}
use bhttp_1_http_in_binary.Server.Resolver.{FileSystem}
use bhttp_1_http_in_binary.Server.Requests.{send_status, serve_request}
use bhttp_1_http_in_binary.Server.Requests.Writing.{
  Leaves, Change, IsAnswerFrame, Only, Only-send_status, Only-serve_request,
}
use bhttp_1_http_in_binary.Server.Loop.{
  stream_zero_message, too_large_message, broken_body_message, on_read_error, on_serve_error, close,
  dispatch, handle_loop, handle,
}
use bhttp_1_http_in_binary.Exchange.Output.{IsLastFrame, IsEncoded}
use bhttp_1_http_in_binary.Exchange.Output.Terms.{
  Terms, is_body_error, Stands, Wrote, Emitted, Stopped, Wrote-same, Wrote-then, Emitted-then,
  Emitted-last, Emitted-same, Emitted-move, Stopped-then, write_conn-success, write_conn-failure,
}

sink-drained :
    (c : Conn) (o : Outcome Source (Unit {0}))
    → (fold_outcome o
        (λ _ s. record c { source = s; half_closed = true })
        (λ e s. record c { source = s; half_closed = true })).sink
      ≡ c.sink
sink-drained c (ok _ s) = refl
sink-drained c (err e s) = refl

sink-drain : (c : Conn) → (drain c).sink ≡ c.sink
unfolding drain
sink-drain c = sink-drained c (discard drain_bytes c.source.fault c.source.chunks)

sink-map_state :
    (c : Conn) (o : Outcome Source Frame)
    → (state_of (map_state (λ s. record c { source = s }) o)).sink ≡ c.sink
sink-map_state c (ok a w) = refl
sink-map_state c (err e w) = refl

sink-read_conn : (c : Conn) → (state_of (read_conn c)).sink ≡ c.sink
unfolding read_conn
sink-read_conn c = sink-map_state c (read c.source)

on_serve_error-other : (e : Error) (c : Conn) → is_body_error e ≡ false → on_serve_error e c ≡ c
unfolding on_serve_error
on_serve_error-other (body_error e) c h = cc
on_serve_error-other _ c h = refl

module _ (t : Terms) where
  Wrote-answer :
      (f : Frame) (b : Bytes) (c c' : Conn)
      → encode f ≡ success b
      → IsAnswerFrame f
      → c'.sink.written ≡ c.sink.written ++ b
      → Stands t c'
      → Wrote t c c'
  Wrote-answer f b c c' e is written stands = record {
    frames = b ∷ [];
    all = (record { frame = f; encoded = e; kind = is }, tt);
    written = written ∙ ap (λ (z : Bytes). c.sink.written ++ z) (sym (append-nil b));
    stands = stands;
  }

  write_conn-Change :
      (f : Frame) (c : Conn)
      → IsAnswerFrame f
      → Leaves
          (λ c'. Stands t c → Wrote t c c')
          (λ e c'. Stands t c → Stopped t e c c')
          (write_conn f c)
  write_conn-Change f c is = elim (Result-cases (encode f)) [
    | inr (x, e) ↦ rw (write_conn-failure t f c e) (λ h. inl (Wrote-same t c c h refl))
    | inl (b, e) ↦ elim (Outcome-cases (write_conn f c)) [
      | inl (u, c', r) ↦ rw r (λ h.
          let got = rw r at (write_conn-success t f b c e (inl is) h) in
          Wrote-answer f b c c' e is got.0 got.1)
      | inr (x, c', r) ↦ rw r (λ h. inr (rw r at (write_conn-success t f b c e (inl is) h)))
    ]
  ]

  abbrev on_terms : Change
  on_terms = record {
    becomes = λ c c'. Stands t c → Wrote t c c';
    breaks = λ e c c'. Stands t c → Stopped t e c c';
    same = λ c h. Wrote-same t c c h refl;
    stops = λ e c h. inl (Wrote-same t c c h refl);
    then_also =
        λ a b c first second h. let one = first h in Wrote-then t a b c one (second one.stands);
    then_breaks = λ e a b c first second h.
        let one = first h in Stopped-then t e a b c one (second one.stands);
    writes = λ f c is. write_conn-Change f c is;
  }

  report_error-Emitted :
      (code : ℕ) (message : Bytes) (c : Conn)
      → Stands t c
      → Emitted t c (report_error code message c)
  unfolding report_error
  report_error-Emitted code message c h =
      elim (Result-cases (encode_conn_error (record { code = code; message = message }))) [
        | inr (x, e) ↦ rw e (Emitted-same t c c refl)
        | inl (payload, e) ↦ elim (Result-cases (encode (error_frame payload))) [
          | inr (x, bad) ↦
              rw (e, write_conn-failure t (error_frame payload) c bad) (Emitted-same t c c refl)
          | inl (b, good) ↦
              let sent = write_conn-success t (error_frame payload) b c good (inr (refl, refl)) h in
              elim (Outcome-cases (write_conn (error_frame payload) c)) [
                | inr (x, c', r) ↦ let cut = rw r at sent in rw (e, r) cut.1
                | inl (u, c', r) ↦
                    let whole = rw r at sent in
                    let is : IsEncoded IsLastFrame b = record {
                      frame = error_frame payload;
                      encoded = good;
                      kind = (refl, refl);
                    } in
                    rw (e, r)
                      (Emitted-move t c c' (drain c') (sink-drain c')
                        (Emitted-last t c c' b (inr (inl is)) whole.0))
              ]
        ]
      ]

  on_read_error-Emitted : (e : Error) (c : Conn) → Stands t c → Emitted t c (on_read_error e c)
  unfolding on_read_error
  on_read_error-Emitted stream_zero c h =
      report_error-Emitted code_invalid_stream_id stream_zero_message c h
  on_read_error-Emitted (oversize typ n) c h = elim (Bool-cases (typ == type_error)) [
    | inl is_error ↦ rw is_error (Emitted-same t c c refl)
    | inr other ↦ rw other (report_error-Emitted code_frame_too_large too_large_message c h)
  ]
  on_read_error-Emitted _ c h = Emitted-same t c c refl

  on_serve_error-Emitted : (e : Error) (c : Conn) → Stands t c → Emitted t c (on_serve_error e c)
  unfolding on_serve_error
  on_serve_error-Emitted (body_error e) c h =
      report_error-Emitted code_protocol_error broken_body_message c h
  on_serve_error-Emitted _ c h = Emitted-same t c c refl

  -- The end of a connection behind a request that failed, and behind another frame.
  Stopped-on_serve_error :
      (e : Error) (c c' : Conn) → Stopped t e c c' → Emitted t c (on_serve_error e c')
  Stopped-on_serve_error e c c' (inl h) =
      Emitted-then t c c' (on_serve_error e c') h (on_serve_error-Emitted e c' h.stands)
  Stopped-on_serve_error e c c' (inr (other, h)) = rw (on_serve_error-other e c' other) h

  Stopped-Emitted : (e : Error) (c c' : Conn) → Stopped t e c c' → Emitted t c c'
  Stopped-Emitted e c c' (inl h) = Emitted-then t c c' c' h (Emitted-same t c' c' refl)
  Stopped-Emitted e c c' (inr (other, h)) = h

  abbrev Emits : Conn → Outcome Conn (Unit {0}) → Type 0
  Emits c o = Emitted t c (state_of o)

  Emits-close : (c c' : Conn) → Emitted t c c' → Emits c (close c')
  Emits-close c c' h = Emitted-move t c c' (record c' { closed = true }) refl h

  -- Code that only answers, and what comes behind it.
  Emits-then :
      (m again : Exec Conn (Unit {0})) (mend : Error → Conn → Conn) (c : Conn)
      → Only on_terms m
      → Stands t c
      → ((c' : Conn) → Stands t c' → Emits c' (again c'))
      → ((e : Error) (c' : Conn) → Stopped t e c c' → Emitted t c (mend e c'))
      → Emits c (fold_outcome (m c) (λ _ c'. again c') (λ e c'. close (mend e c')))
  Emits-then m again mend c only h rest mends = elim (Outcome-cases (m c)) [
    | inl (u, c', r) ↦
        let sent : Wrote t c c' = (rw r at (only.at c)) h in
        rw r (Emitted-then t c c' (state_of (again c')) sent (rest c' sent.stands))
    | inr (e, c', r) ↦
        let sent : Stopped t e c c' = (rw r at (only.at c)) h in
        rw r (Emits-close c (mend e c') (mends e c' sent))
  ]

module _ (t : Terms) (fs : FileSystem) (root : FilePath) where
  dispatch-Emits :
      (again : Exec Conn (Unit {0})) (f : Frame) (c : Conn)
      → Stands t c
      → ((c' : Conn) → Stands t c' → Emits t c' (again c'))
      → Emits t c (dispatch fs root again f c)
  unfolding dispatch
  dispatch-Emits again f c h rest = elim (Bool-cases (f.typ == type_request)) [
    | inl request ↦ rw request (
        Emits-then t (serve_request fs root f) again on_serve_error c
          (Only-serve_request (on_terms t) fs root f) h rest
          (λ e c' stopped. Stopped-on_serve_error t e c c' stopped))
    | inr other ↦ elim (Bool-cases (f.typ == type_response || f.typ == type_data)) [
      | inl answer ↦
          rw (other, answer)
            (Emits-then t (send_status f.stream_id 400) again (λ e c'. c') c
              (Only-send_status (on_terms t) f.stream_id 400) h rest
              (λ e c' stopped. Stopped-Emitted t e c c' stopped))
      | inr not_answer ↦ elim (Bool-cases (f.typ == type_error)) [
        | inl error ↦ rw (other, not_answer, error) (Emits-close t c c (Emitted-same t c c refl))
        | inr unknown ↦ rw (other, not_answer, unknown) (rest c h)
      ]
    ]
  ]

  handle_loop-Emits : (fuel : ℕ) (c : Conn) → Stands t c → Emits t c (handle_loop fs root fuel c)
  unfolding handle_loop
  handle_loop-Emits zero c h = Emitted-same t c c refl
  handle_loop-Emits (suc fuel) c h =
      let quiet = sink-read_conn c in
      elim (Outcome-cases (read_conn c)) [
        | inl (f, c', r) ↦
            let same : c'.sink ≡ c.sink = rw r at quiet in
            let here = Wrote-same t c c' h same in
            rw r (
              Emitted-then t c c' (state_of (dispatch fs root (handle_loop fs root fuel) f c')) here
                (dispatch-Emits (handle_loop fs root fuel) f c' here.stands
                  (λ c2 h2. handle_loop-Emits fuel c2 h2)))
        | inr (e, c', r) ↦
            let same : c'.sink ≡ c.sink = rw r at quiet in
            let here = Wrote-same t c c' h same in
            rw r (
              Emits-close t c (on_read_error e c') (
                Emitted-then t c c' (on_read_error e c') here
                  (on_read_error-Emitted t e c' here.stands)))
      ]

  pub handle-Emits : (c : Conn) → Stands t c → Emitted t c (state_of (handle fs root c))
  unfolding handle
  handle-Emits c h = handle_loop-Emits (suc (length (join c.source.chunks))) c h
