-- ===== src/Server/Loop/Ending.antt =====
-- Every connection's loop comes to an end, with the connection closed.
use bhttp_1_http_in_binary.Base.{
  ℕ, zero, suc, ◌<◌, ◌≡◌, refl, arith, true, Bool-cases, inl, inr, Error, Outcome, ok, Exec,
  Outcome-cases, fold_outcome, length, join, ◌==◌, ◌||◌, map_state-eq-ok,
}
use bhttp_1_http_in_binary.Frame.{Frame, type_request, type_response, type_data, type_error}
use bhttp_1_http_in_binary.Frame.Progress.{Gained, read-Gained}
use bhttp_1_http_in_binary.Frame.Reader.{read}
use bhttp_1_http_in_binary.Server.Paths.{FilePath}
use bhttp_1_http_in_binary.Server.Resolver.{FileSystem}
use bhttp_1_http_in_binary.Server.Requests.{send_status, serve_request}
use bhttp_1_http_in_binary.Server.Requests.Writing.{Only, Only-send_status, Only-serve_request}
use bhttp_1_http_in_binary.Server.Requests.ReadSide.{keeps_source}
use bhttp_1_http_in_binary.Server.Loop.{
  on_read_error, on_serve_error, close, dispatch, handle_loop, handle,
}
use bhttp_1_http_in_binary.Conn.{Conn, read_conn}

-- The loop has returned, and the connection is closed.
abbrev pub Closes : Outcome Conn (Unit {0}) → Type 0
Closes o = (c : Conn) × (o ≡ ok tt c) × (c.closed ≡ true)

Closes-close : (c : Conn) → Closes (close c)
Closes-close c = (record c { closed = true }, refl, refl)

abbrev still : Conn → ℕ
still c = length (join c.source.chunks)

-- A frame that was read leaves fewer bytes.
read_conn-shorter :
    (c c' : Conn) (f : Frame)
    → read_conn c ≡ ok f c'
    → Gained f (join c.source.chunks) (join c'.source.chunks)
unfolding read_conn
read_conn-shorter c c' f e =
    let (u, r, is) = map_state-eq-ok (λ s. record c { source = s }) (read c.source) e in
    rw (← is) (read-Gained c.source u f r)

-- The rest of a loop, after code that only writes.
Closes-then :
    (m : Exec Conn (Unit {0})) (again : Exec Conn (Unit {0})) (mend : Error → Conn → Conn)
    (c : Conn)
    → Only keeps_source m
    → ((c' : Conn) → c'.source ≡ c.source → Closes (again c'))
    → Closes (fold_outcome (m c) (λ _ c'. again c') (λ e c'. close (mend e c')))
Closes-then m again mend c keeps rest = elim (Outcome-cases (m c)) [
  | inl (u, c', r) ↦ rw r (rest c' (rw r at (keeps.at c)))
  | inr (e, c', r) ↦ rw r (Closes-close (mend e c'))
]

module _ (fs : FileSystem) (root : FilePath) where
  dispatch-Closes :
      (again : Exec Conn (Unit {0})) (f : Frame) (c : Conn)
      → ((c' : Conn) → c'.source ≡ c.source → Closes (again c'))
      → Closes (dispatch fs root again f c)
  unfolding dispatch
  dispatch-Closes again f c rest = elim (Bool-cases (f.typ == type_request)) [
    | inl request ↦ rw request (
        Closes-then (serve_request fs root f) again on_serve_error c
          (Only-serve_request keeps_source fs root f) rest)
    | inr other ↦ elim (Bool-cases (f.typ == type_response || f.typ == type_data)) [
      | inl answer ↦
          rw (other, answer)
            (Closes-then (send_status f.stream_id 400) again (λ e c'. c') c
              (Only-send_status keeps_source f.stream_id 400) rest)
      | inr not_answer ↦ elim (Bool-cases (f.typ == type_error)) [
        | inl error ↦ rw (other, not_answer, error) (Closes-close c)
        | inr unknown ↦ rw (other, not_answer, unknown) (rest c refl)
      ]
    ]
  ]

  handle_loop-Closes : (fuel : ℕ) (c : Conn) → still c < fuel → Closes (handle_loop fs root fuel c)
  unfolding handle_loop
  handle_loop-Closes zero c h = absurd (omega arith)
  handle_loop-Closes (suc fuel) c h = elim (Outcome-cases (read_conn c)) [
    | inl (f, c', r) ↦
        let g = read_conn-shorter c c' f r in
        rw r (
          dispatch-Closes (handle_loop fs root fuel) f c'
            (λ c2 same. handle_loop-Closes fuel c2 (rw same (omega (arith, g.shorter)))))
    | inr (e, c', r) ↦ rw r (Closes-close (on_read_error e c'))
  ]

  -- Whatever arrives on a connection and whatever becomes of the writes, handle returns, and the
  -- connection is closed then: the fuel of the loop is always enough.
  pub handle-Closes : (c : Conn) → Closes (handle fs root c)
  unfolding handle
  handle-Closes c = handle_loop-Closes (suc (still c)) c (omega arith)
