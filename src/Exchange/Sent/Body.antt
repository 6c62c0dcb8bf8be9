-- ===== src/Exchange/Sent/Body.antt =====
-- `sendFile` on a connection that takes what it is given: an announced body goes out whole.
use bhttp_1_http_in_binary.Base.{
  ℕ, zero, suc, ◌-◌, ◌≤◌, ◌≡◌, ◌≢◌, refl, sym, ap, ◌∙◌, arith, Bool, true, false, ◌++◌,
  append_assoc, Bytes, success, length, ltb, All, take, drop, take_all, take-append-drop,
  length-take, length-drop, min, Exec, Outcome, ok, ◌>>◌, ◌==◌, join, Bool-cases, inl, inr,
}
use bhttp_1_http_in_binary.Stream.{Source, Sink}
use bhttp_1_http_in_binary.Stream.Simulation.{read_full-enough}
use bhttp_1_http_in_binary.Frame.{Frame, encode, max_payload, wire_header}
use bhttp_1_http_in_binary.Frame.Writer.Delivery.{Advances, write_sends}
use bhttp_1_http_in_binary.Conn.{Conn, write_conn}
use bhttp_1_http_in_binary.Server.Requests.{data_frame, send_body}
use bhttp_1_http_in_binary.Exchange.{BodyWire, last, more}

-- The peer takes whatever it is sent, be it in small parts.
abbrev pub IsHealthy : Conn → Type 0
IsHealthy c = All Advances c.sink.grants

-- The bytes that were sent, and that nothing else has changed on the connection.
pub record Sends (c : Conn) (wire : Bytes) (o : Outcome Conn (Unit {0})) : Type 0 where
  pub sink : Sink
  pub result : o ≡ ok tt (record c { sink = sink })
  pub written : sink.written ≡ c.sink.written ++ wire
  pub healthy : All Advances sink.grants

pub write_conn-Sends :
    (f : Frame) {b : Bytes} (c : Conn)
    → encode f ≡ success b
    → IsHealthy c
    → Sends c b (write_conn f c)
unfolding write_conn
write_conn-Sends f c e h =
    let (v, sent, out, left) = write_sends f c.sink e h in
    record { sink = v; result = rw sent; written = out; healthy = left }

encode-data_frame :
    (stream : ℕ) (chunk : Bytes) (end : Bool)
    → stream ≢ 0
    → length chunk ≤ max_payload
    → (b : Bytes) × (encode (data_frame stream chunk end) ≡ success b)
unfolding encode
encode-data_frame stream chunk end nonzero fits =
    let f = data_frame stream chunk end in
    (wire_header (length chunk) f.typ f.flags stream ++ chunk, ground arith)

-- One round of the loop.
send_body-round :
    (fuel stream n m rest : ℕ) (end : Bool) (content extra : Bytes) (file : Source) (c : Conn)
    → stream ≢ 0
    → length content ≡ suc n
    → join file.chunks ≡ content ++ extra
    → m ≡ min max_payload (suc n)
    → suc n - m ≡ rest
    → (rest == 0) ≡ end
    → (u : Source) × (b : Bytes) × (join u.chunks ≡ drop m content ++ extra)
      × (encode (data_frame stream (take m content) end) ≡ success b)
      × (send_body (suc fuel) stream (suc n) file c
          ≡ (write_conn (data_frame stream (take m content) end) >> send_body fuel stream rest u) c)
unfolding send_body
send_body-round fuel stream n m rest end content extra file c nonzero size bytes is left_over
      is_end =
    let (u, r, left) = read_full-enough m file content extra bytes (omega arith) in
    let (b, e) =
      encode-data_frame stream (take m content) end nonzero
        (omega (arith, length-take m content)) in
    (u, b, left, e, rw (← is) (rw r (rw left_over (rw is_end))))

-- The code sends DATA frames that carry the content.
abbrev pub Carries : ℕ → Bytes → Conn → Outcome Conn (Unit {0}) → Type 0
Carries stream content c o = (wire : Bytes) × BodyWire stream content wire × Sends c wire o

send_body-last :
    (fuel stream : ℕ) (content : Bytes) (u : Source) (c : Conn) {b : Bytes}
    → encode (data_frame stream content true) ≡ success b
    → IsHealthy c
    → Carries stream content c
        ((write_conn (data_frame stream content true) >> send_body fuel stream 0 u) c)
unfolding send_body
send_body-last fuel stream content u c {b} e h =
    let one = write_conn-Sends (data_frame stream content true) c e h in
    (
      b,
      last e,
      record {
        sink = one.sink;
        result = rw one.result;
        written = one.written;
        healthy = one.healthy;
      },
    )

send_body-more :
    (k : Exec Conn (Unit {0})) (stream : ℕ) (chunk content' content : Bytes) (c : Conn) {b : Bytes}
    → encode (data_frame stream chunk false) ≡ success b
    → IsHealthy c
    → content ≡ chunk ++ content'
    → ((s : Sink)
        → All Advances s.grants
        → Carries stream content' (record c { sink = s }) (k (record c { sink = s })))
    → Carries stream content c ((write_conn (data_frame stream chunk false) >> k) c)
send_body-more k stream chunk content' content c {b} e h is rest =
    let f = data_frame stream chunk false in
    let one = write_conn-Sends f c e h in
    let (wire', w, two) = rest one.sink one.healthy in
    (
      b ++ wire',
      more chunk b content' wire' e w is refl,
      record {
        sink = two.sink;
        result = rw one.result two.result;
        written =
            two.written
            ∙ ap (λ (x : Bytes). x ++ wire') one.written
            ∙ append_assoc c.sink.written b wire';
        healthy = two.healthy;
      },
    )

-- A body of one frame.
send_body-small :
    (fuel stream n : ℕ) (content extra : Bytes) (file : Source) (c : Conn)
    → stream ≢ 0
    → suc n ≤ max_payload
    → length content ≡ suc n
    → join file.chunks ≡ content ++ extra
    → IsHealthy c
    → Carries stream content c (send_body (suc fuel) stream (suc n) file c)
send_body-small fuel stream n content extra file c nonzero small size bytes h =
    let all : take (suc n) content ≡ content = rw (← size) (take_all content) in
    let (u, b, left, e, round) =
      send_body-round fuel stream n (suc n) 0 true content extra file c nonzero size bytes
        (omega arith) (omega arith) refl in
    rw round (rw all (send_body-last fuel stream content u c (rw all at e) h))

-- The loop of `sendFile` sends exactly the bytes that were announced.
pub send_body-Carries :
    (fuel stream n : ℕ) (content extra : Bytes) (file : Source) (c : Conn)
    → stream ≢ 0
    → n ≤ fuel
    → length content ≡ suc n
    → join file.chunks ≡ content ++ extra
    → IsHealthy c
    → Carries stream content c (send_body (suc fuel) stream (suc n) file c)
send_body-Carries zero stream n content extra file c nonzero enough size bytes h =
    send_body-small zero stream n content extra file c nonzero (omega arith) size bytes h
send_body-Carries (suc fuel) stream n content extra file c nonzero enough size bytes h =
    elim (Bool-cases (ltb max_payload (suc n))) [
      | inl large ↦
          let left_over : suc n - max_payload ≡ suc (n - max_payload) = ground arith in
          let (u, b, left, e, round) =
            send_body-round (suc fuel) stream n max_payload (suc (n - max_payload)) false content
              extra file c nonzero size bytes (ground arith) left_over (ground arith) in
          rw round (
            send_body-more (send_body (suc fuel) stream (suc (n - max_payload)) u) stream
              (take max_payload content) (drop max_payload content) content c e h
              (sym (take-append-drop max_payload content))
              (λ s hs.
                send_body-Carries fuel stream (n - max_payload) (drop max_payload content) extra u
                  (record c { sink = s }) nonzero (omega arith)
                  (omega (arith, length-drop max_payload content, left_over)) left hs))
      | inr small ↦
          send_body-small (suc fuel) stream n content extra file c nonzero (ground arith) size bytes
            h
    ]
