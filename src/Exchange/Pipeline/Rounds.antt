-- ===== src/Exchange/Pipeline/Rounds.antt =====
-- One round of `handle`: the end of the input, and a request.
use bhttp_1_http_in_binary.Base.{
  ℕ, zero, suc, ◌<◌, ◌≡◌, refl, ap, ◌∙◌, arith, true, [], Bytes, length, Error, ok, err, eof, ◌==◌,
}
use bhttp_1_http_in_binary.Stream.{Source, short_read}
use bhttp_1_http_in_binary.Stream.Flat.{flatten}
use bhttp_1_http_in_binary.Stream.Simulation.{Simulates-err}
use bhttp_1_http_in_binary.Frame.{Frame, type_request}
use bhttp_1_http_in_binary.Frame.Reader.{header_error}
use bhttp_1_http_in_binary.Frame.Reader.Equations.{at_bytes, read-Simulates, read_flat-short}
use bhttp_1_http_in_binary.Conn.{Conn, read_conn}
use bhttp_1_http_in_binary.Server.Paths.{FilePath}
use bhttp_1_http_in_binary.Server.Resolver.{FileSystem}
use bhttp_1_http_in_binary.Server.Requests.{serve_request}
use bhttp_1_http_in_binary.Server.Loop.{handle_loop, dispatch, on_read_error}
use bhttp_1_http_in_binary.Exchange.Sent.Body.{Sends}
use bhttp_1_http_in_binary.Exchange.Bodies.{to_come}

module _ (fs : FileSystem) (root : FilePath) where
  -- At the end of the input there is nothing to answer.
  read_conn-end :
      (c : Conn)
      → to_come c ≡ []
      → c.source.fault ≡ eof
      → (u : Source) × (read_conn c ≡ err eof (record c { source = u }))
  unfolding read_conn
  read_conn-end c empty ends =
      let t = flatten c.source in
      let no_bytes : header_error (short_read t.bytes t.fault) ≡ eof =
        rw (empty, ends) (unfold short_read header_error in refl) in
      let (u, r, left) = Simulates-err c.source {e = eof} {t = at_bytes t []} read-Simulates (
        read_flat-short t (omega (arith, ap length empty))
        ∙ ap (λ (x : Error). err x (at_bytes t [])) no_bytes) in
      (u, rw r refl)

  pub handle_loop-end :
      (fuel : ℕ) (c : Conn)
      → to_come c ≡ []
      → c.source.fault ≡ eof
      → 0 < fuel
      → (c' : Conn) × (handle_loop fs root fuel c ≡ ok tt c') × (c'.sink ≡ c.sink)
  unfolding handle_loop
  handle_loop-end zero c empty ends enough = absurd (omega arith)
  handle_loop-end (suc fuel) c empty ends enough =
      let (u, r) = read_conn-end c empty ends in
      (record c { source = u; closed = true }, rw r (unfold on_read_error in refl), refl)

  -- A round with a request serves it and goes on.
  pub handle_loop-serve :
      (fuel : ℕ) (q : Frame) (c : Conn) (u : Source) {wire : Bytes}
      → read_conn c ≡ ok q (record c { source = u })
      → q.typ ≡ type_request
      → (sends : Sends
          (record c { source = u })
          wire
          (serve_request fs root q (record c { source = u })))
      → handle_loop fs root (suc fuel) c
        ≡ handle_loop fs root fuel (record c { source = u; sink = sends.sink })
  unfolding handle_loop dispatch
  handle_loop-serve fuel q c u r is_request sends =
      let served : (q.typ == type_request) ≡ true = ground arith in
      rw r (rw served (rw sends.result refl))
