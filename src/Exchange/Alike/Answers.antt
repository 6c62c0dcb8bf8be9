-- ===== src/Exchange/Alike/Answers.antt =====
-- The client's calls do the same on two streams that are heard alike.
use bhttp_1_http_in_binary.Base.{
  ℕ, zero, suc, ◌+◌, refl, arith, Bool, true, false, Bool-cases, inl, inr, wrapped, out_of_fuel,
  Outcome, Outcome-cases, Result, success, failure, map_state, if◌then◌else◌, length, from_result,
  Exec, ◌>>=◌,
}
use bhttp_1_http_in_binary.Stream.{Source, Sink, write_once}
use bhttp_1_http_in_binary.Frame.{Frame, type_data, type_response, flag_end_stream, has_flag}
use bhttp_1_http_in_binary.Protocol.Messages.{Response, decode_response}
use bhttp_1_http_in_binary.Conn.{Conn}
use bhttp_1_http_in_binary.Client.{
  read_frame, expect, Download, on_conn, on_body, read_body, bytes_left, read_rest, unwrap_response,
  read_answer,
}
use bhttp_1_http_in_binary.Client.Lengths.{check_length}
use bhttp_1_http_in_binary.Exchange.Alike.{
  Both, both_ok, both_err, DoesAlike, DoesAlike-pure, DoesAlike-from_result, DoesAlike-bind,
}
use bhttp_1_http_in_binary.Exchange.Alike.Frames.{
  on_stream, BothConns, ConnAlike, read_frame-ConnAlike, expect-ConnAlike,
}
use bhttp_1_http_in_binary.Exchange.Alike.Fuel.{read_body_enough}

abbrev pub download_stream : Download → Source
download_stream d = d.conn.source

abbrev pub download_on : Source → Download → Download
download_on t d = record d { conn = on_stream t d.conn }

abbrev pub BothDownloads : {A : Type 0} → Outcome Download A → Outcome Download A → Type 0
BothDownloads = Both download_stream download_on

abbrev DownloadAlike : {A : Type 0} → Exec Download A → Type 0
DownloadAlike = DoesAlike download_stream download_on

lifted :
    {A : Type 0} (o o' : Outcome Conn A) (body : Sink)
    → BothConns o o'
    → BothDownloads
        (map_state (λ c. record { conn = c; body = body }) o)
        (map_state (λ c. record { conn = c; body = body }) o')
lifted o o' body (both_ok a c t e e' h) =
    rw (e, e') (both_ok a (record { conn = c; body = body }) t refl refl h)
lifted o o' body (both_err x c t e e') =
    rw (e, e') (both_err x (record { conn = c; body = body }) t refl refl)

on_conn-DownloadAlike : {A : Type 0} (m : Exec Conn A) → ConnAlike m → DownloadAlike (on_conn m)
on_conn-DownloadAlike m d = record {
  on = λ s t h. lifted (m s.conn) (m (on_stream t s.conn)) s.body (d.on s.conn t h);
}

on_body-DownloadAlike : (m : Exec Sink (Unit {0})) → DownloadAlike (on_body m)
on_body-DownloadAlike m = record {
  on = λ s t h. elim (Outcome-cases (m s.body)) [
    | inl (a, w, e) ↦ rw e (both_ok a (record s { body = w }) t refl refl h)
    | inr (x, w, e) ↦ rw e (both_err (wrapped x) (record s { body = w }) t refl refl)
  ];
}

if-DownloadAlike :
    {A : Type 0} (b : Bool) (m n : Exec Download A)
    → DownloadAlike m
    → DownloadAlike n
    → DownloadAlike (if b then m else n)
if-DownloadAlike true m n h k = h
if-DownloadAlike false m n h k = k

bind :
    {A B : Type 0} (m : Exec Download A) (f : A → Exec Download B)
    → DownloadAlike m
    → ((a : A) → DownloadAlike (f a))
    → DownloadAlike (m >>= f)
bind = DoesAlike-bind download_stream download_on

read_body-DownloadAlike : (fuel id got : ℕ) → DownloadAlike (read_body fuel id got)
unfolding read_body
read_body-DownloadAlike zero id got = record { on = λ s t h. both_err out_of_fuel s t refl refl }
read_body-DownloadAlike (suc fuel) id got =
    bind (on_conn read_frame) _ (on_conn-DownloadAlike read_frame read_frame-ConnAlike) (λ d.
      bind (on_conn (expect d type_data id)) _
        (on_conn-DownloadAlike (expect d type_data id) (expect-ConnAlike d type_data id))
        (λ a.
          bind (on_body (write_once d.payload)) _ (on_body-DownloadAlike (write_once d.payload))
            (λ b.
              if-DownloadAlike (has_flag d.flags flag_end_stream) _ _
                (DoesAlike-pure download_stream download_on (got + length d.payload))
                (read_body-DownloadAlike fuel id (got + length d.payload)))))

read_rest-DownloadAlike : (id : ℕ) (f : Frame) → DownloadAlike (read_rest id f)
unfolding read_rest
read_rest-DownloadAlike id f = record {
  on = λ s t h. elim (Bool-cases (has_flag f.flags flag_end_stream)) [
    | inl ends ↦ rw ends (both_ok 0 s t refl refl h)
    | inr more ↦
        let d = download_on t s in
        let enough = suc (bytes_left s + bytes_left d) in
        let one = read_body_enough (suc (bytes_left s)) enough id 0 s (omega arith) (omega arith) in
        let two = read_body_enough (suc (bytes_left d)) enough id 0 d (omega arith) (omega arith) in
        rw more (rw (one, two) ((read_body-DownloadAlike enough id 0).on s t h))
  ];
}

unwrap_response-DownloadAlike : (r : Result Response) → DownloadAlike (unwrap_response r)
unfolding unwrap_response
unwrap_response-DownloadAlike (success r) = DoesAlike-pure download_stream download_on r
unwrap_response-DownloadAlike (failure e) = record {
  on = λ s t h. both_err (wrapped e) s t refl refl;
}

pub read_answer-DownloadAlike : (id : ℕ) → DownloadAlike (read_answer id)
unfolding read_answer
read_answer-DownloadAlike id =
    bind (on_conn read_frame) _ (on_conn-DownloadAlike read_frame read_frame-ConnAlike) (λ f.
      bind (on_conn (expect f type_response id)) _
        (on_conn-DownloadAlike (expect f type_response id) (expect-ConnAlike f type_response id))
        (λ a.
          bind (unwrap_response (decode_response f.payload)) _
            (unwrap_response-DownloadAlike (decode_response f.payload))
            (λ resp. bind (read_rest id f) _ (read_rest-DownloadAlike id f) (λ got.
              bind (from_result (check_length resp.headers got)) _
                (DoesAlike-from_result download_stream download_on (check_length resp.headers got))
                (λ b. DoesAlike-pure download_stream download_on _)))))
