-- ===== src/Exchange/Alike/Frames.antt =====
-- The client's reading of one frame does the same on two streams that are heard alike.
use bhttp_1_http_in_binary.Base.{
  ℕ, ◌≡◌, refl, ap, Bool-cases, inl, inr, Bytes, Error, eof, truncated, stream_zero, oversize,
  declared_payload, used_stream_zero, closed_early, wrapped, unexpected_request, unexpected_frame,
  Outcome, ok, err, Outcome-cases, Result-cases, fold_outcome, not, ◌||◌, ◌==◌, Exec,
}
use bhttp_1_http_in_binary.Stream.{Source, discard}
use bhttp_1_http_in_binary.Frame.{Frame, type_error, type_request}
use bhttp_1_http_in_binary.Frame.Writer.{write}
use bhttp_1_http_in_binary.Protocol.Messages.{
  encode_conn_error, code_invalid_stream_id, code_frame_too_large, code_protocol_error,
}
use bhttp_1_http_in_binary.Conn.{
  Conn, drain_bytes, read_conn, write_conn, drain, error_frame, report_error,
}
use bhttp_1_http_in_binary.Client.{
  send_error, zero_message, large_message, request_message, frame_fault, read_frame, remote_error,
  expect,
}
use bhttp_1_http_in_binary.Exchange.Alike.{
  ReadsAlike, same_frame, same_fault, HeardAlike-ReadsAlike, Both, both_ok, both_err, DoesAlike,
}

abbrev pub stream_of : Conn → Source
stream_of c = c.source

abbrev pub on_stream : Source → Conn → Conn
on_stream t c = record c { source = t }

abbrev pub BothConns : {A : Type 0} → Outcome Conn A → Outcome Conn A → Type 0
BothConns = Both stream_of on_stream

abbrev pub ConnAlike : {A : Type 0} → Exec Conn A → Type 0
ConnAlike = DoesAlike stream_of on_stream

read_conn-Both :
    (c : Conn) (t : Source)
    → ReadsAlike c.source t
    → BothConns (read_conn c) (read_conn (on_stream t c))
unfolding read_conn
read_conn-Both c t (same_frame f u v r q h) =
    both_ok f (record c { source = u }) v (rw r refl) (rw q refl) h
read_conn-Both c t (same_fault e u v r q) =
    both_err e (record c { source = u }) v (rw r refl) (rw q refl)

-- What is written, and how a connection is drained, does not depend on what is still to come, but for that
-- itself.
abbrev UpToStream : Conn → Conn → Type 0
UpToStream c c' = (t : Source) × (c' ≡ on_stream t c)

drain-UpToStream : (c : Conn) (t : Source) → UpToStream (drain c) (drain (on_stream t c))
unfolding drain
drain-UpToStream c t = elim (Outcome-cases (discard drain_bytes c.source.fault c.source.chunks)) [
  | inl (a, s, e) ↦ elim (Outcome-cases (discard drain_bytes t.fault t.chunks)) [
    | inl (b, u, q) ↦ (u, rw (e, q) refl)
    | inr (x, u, q) ↦ (u, rw (e, q) refl)
  ]
  | inr (x, s, e) ↦ elim (Outcome-cases (discard drain_bytes t.fault t.chunks)) [
    | inl (b, u, q) ↦ (u, rw (e, q) refl)
    | inr (y, u, q) ↦ (u, rw (e, q) refl)
  ]
]

report_error-UpToStream :
    (code : ℕ) (message : Bytes) (c : Conn) (t : Source)
    → UpToStream (report_error code message c) (report_error code message (on_stream t c))
unfolding report_error write_conn
report_error-UpToStream code message c t =
    elim (Result-cases (encode_conn_error (record { code = code; message = message }))) [
      | inr (x, e) ↦ (t, rw e refl)
      | inl (payload, e) ↦ elim (Outcome-cases (write (error_frame payload) c.sink)) [
        | inr (y, w, q) ↦ (t, rw (e, q) refl)
        | inl (a, w, q) ↦
            let (u, d) = drain-UpToStream (record c { sink = w }) t in (u, rw (e, q) d)
      ]
    ]

frame_fault-Both :
    (e : Error) (c : Conn) (t : Source)
    → BothConns (frame_fault e c) (frame_fault e (on_stream t c))
unfolding frame_fault
frame_fault-Both stream_zero c t =
    let (u, r) = report_error-UpToStream code_invalid_stream_id zero_message c t in
    both_err used_stream_zero (send_error code_invalid_stream_id zero_message c) u refl
      (ap (err used_stream_zero) r)
frame_fault-Both (oversize typ n) c t = elim (Bool-cases (typ == type_error)) [
  | inl is ↦ both_err (declared_payload n) c t (rw is refl) (rw is refl)
  | inr other ↦
      let (u, r) = report_error-UpToStream code_frame_too_large large_message c t in
      both_err (declared_payload n) (send_error code_frame_too_large large_message c) u
        (rw other refl) (rw other (ap (err (declared_payload n)) r))
]
frame_fault-Both eof c t = both_err closed_early c t refl refl
frame_fault-Both truncated c t = both_err closed_early c t refl refl
frame_fault-Both e c t = both_err (wrapped e) c t refl refl

with_faults :
    (o o' : Outcome Conn Frame)
    → BothConns o o'
    → BothConns
        (fold_outcome o (λ f c. ok f c) (λ e c. frame_fault e c))
        (fold_outcome o' (λ f c. ok f c) (λ e c. frame_fault e c))
with_faults o o' (both_ok f c t e e' h) = rw (e, e') (both_ok f c t refl refl h)
with_faults o o' (both_err x c t e e') = rw (e, e') (frame_fault-Both x c t)

pub read_frame-ConnAlike : ConnAlike read_frame
unfolding read_frame
read_frame-ConnAlike = record {
  on = λ c t h.
      with_faults (read_conn c) (read_conn (on_stream t c))
        (read_conn-Both c t (HeardAlike-ReadsAlike c.source t h));
}

pub expect-ConnAlike : (f : Frame) (want id : ℕ) → ConnAlike (expect f want id)
unfolding expect
expect-ConnAlike f want id = record {
  on = λ c t h. elim (Bool-cases (f.typ == type_error)) [
    | inl e ↦ rw e (both_err (remote_error f) c t refl refl)
    | inr n ↦ elim (Bool-cases (f.typ == type_request)) [
      | inl e ↦
          let (u, r) = report_error-UpToStream code_protocol_error request_message c t in
          rw (n, e)
            (both_err unexpected_request (send_error code_protocol_error request_message c) u refl
              (ap (err unexpected_request) r))
      | inr k ↦ elim (Bool-cases (not (f.typ == want) || not (f.stream_id == id))) [
        | inl e ↦ rw (n, k, e) (both_err unexpected_frame c t refl refl)
        | inr e ↦ rw (n, k, e) (both_ok tt c t refl refl h)
      ]
    ]
  ];
}
