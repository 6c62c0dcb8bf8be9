-- ===== src/Exchange/Bodies.antt =====
-- The client on the frames of an answer's body that follow the contract.
use bhttp_1_http_in_binary.Base.{
  ℕ, zero, suc, ◌+◌, ◌<◌, ◌^◌, ◌≡◌, refl, ap, ◌∙◌, arith, Bool, true, false, if◌then◌else◌, [],
  ◌++◌, append_assoc, Bytes, Outcome, ok, success, length, length-append, join, pure, ◌⊎◌, inl,
}
use bhttp_1_http_in_binary.Stream.{write_once, Source, Sink}
use bhttp_1_http_in_binary.Frame.{
  Frame, IsFrame, encode, is_known, has_flag, type_data, type_response, flag_end_stream,
}
use bhttp_1_http_in_binary.Frame.RoundTrip.{read-encode, length-encode}
use bhttp_1_http_in_binary.Conn.{Conn, read_conn}
use bhttp_1_http_in_binary.Server.Requests.{response_frame, data_frame}
use bhttp_1_http_in_binary.Client.{Download, read_frame, expect, read_body}
use bhttp_1_http_in_binary.Exchange.{BodyWire, last, more}

-- The bytes that are still to come on a connection.
abbrev pub to_come : Conn → Bytes
to_come c = join c.source.chunks

pub read_frame-encode :
    (f : Frame) {b : Bytes} (c : Conn) (rest : Bytes)
    → IsFrame f
    → is_known f.typ ≡ true
    → encode f ≡ success b
    → to_come c ≡ b ++ rest
    → (u : Source) × (read_frame c ≡ ok f (record c { source = u })) × (join u.chunks ≡ rest)
unfolding read_frame read_conn
read_frame-encode f c rest h known e bytes =
    let (u, r, left, fault) = read-encode f c.source rest h known e bytes in (u, rw r, left)

pub expect_match :
    (f : Frame) (want id : ℕ) (c : Conn)
    → (want ≡ type_data) ⊎ (want ≡ type_response)
    → f.typ ≡ want
    → f.stream_id ≡ id
    → expect f want id c ≡ ok tt c
unfolding expect
expect_match f want id c two e s = ground arith

-- A body's writer that has no complaint.
abbrev pub IsOpen : Sink → Type 0
IsOpen w = w.grants ≡ []

write_once-IsOpen :
    (b : Bytes) (w : Sink)
    → IsOpen w
    → write_once b w ≡ ok tt (record { written = w.written ++ b; grants = [] })
unfolding write_once
write_once-IsOpen b w h = rw h

module _ (id : ℕ) (chunk : Bytes) (range : id < 2 ^ 32) where
  data_frame-IsFrame : (end : Bool) → IsFrame (data_frame id chunk end)
  data_frame-IsFrame true = record {
    typ_byte = omega arith;
    flags_byte = omega arith;
    stream_range = range;
  }
  data_frame-IsFrame false = record {
    typ_byte = omega arith;
    flags_byte = omega arith;
    stream_range = range;
  }

  pub response_frame-IsFrame : (end : Bool) → IsFrame (response_frame id chunk end)
  response_frame-IsFrame true = record {
    typ_byte = omega arith;
    flags_byte = omega arith;
    stream_range = range;
  }
  response_frame-IsFrame false = record {
    typ_byte = omega arith;
    flags_byte = omega arith;
    stream_range = range;
  }

is_known-type_data : is_known type_data ≡ true
unfolding is_known
is_known-type_data = refl

pub is_known-type_response : is_known type_response ≡ true
unfolding is_known
is_known-type_response = refl

-- END_STREAM is seen where it was set.
pub has_flag-end :
    (end : Bool) → has_flag (if end then flag_end_stream else 0) flag_end_stream ≡ end
unfolding has_flag
has_flag-end true = refl
has_flag-end false = refl

-- One round of the loop over the body.
read_body-data :
    (fuel id got : ℕ) (chunk : Bytes) (end : Bool) {b : Bytes} (d : Download) (rest : Bytes)
    → id < 2 ^ 32
    → encode (data_frame id chunk end) ≡ success b
    → IsOpen d.body
    → to_come d.conn ≡ b ++ rest
    → (u : Source) × (join u.chunks ≡ rest)
      × (read_body (suc fuel) id got d
          ≡ (if end then pure (got + length chunk) else read_body fuel id (got + length chunk))
              (record {
                conn = record d.conn { source = u };
                body = record { written = d.body.written ++ chunk; grants = [] };
              }))
unfolding read_body
read_body-data fuel id got chunk end d rest range e ready bytes =
    let f = data_frame id chunk end in
    let (u, r, left) =
      read_frame-encode f d.conn rest (data_frame-IsFrame id chunk range end) is_known-type_data e
        bytes in
    (
      u,
      left,
      rw r (
          rw (expect_match f type_data id (record d.conn { source = u }) (inl refl) refl refl)
            (rw (write_once-IsOpen chunk d.body ready) (rw (has_flag-end end)))),
    )

-- The sums of the two parts of a body.
same_end :
    (got : ℕ) (chunk content' : Bytes) (c : Conn) (out : Bytes) {content : Bytes}
    → content ≡ chunk ++ content'
    → ◌≡◌ {A = Outcome Download ℕ}
        (ok
          (got + length chunk + length content')
          (record { conn = c; body = record { written = out ++ chunk ++ content'; grants = [] } }))
        (ok
          (got + length content)
          (record { conn = c; body = record { written = out ++ content; grants = [] } }))
same_end got chunk content' c out e =
    let n : got + length chunk + length content' ≡ got + length (chunk ++ content') =
      omega (arith, length-append chunk content') in
    rw (e, n, append_assoc out chunk content')

-- The loop gets the whole body, counts it, and leaves what follows.
pub read_body-BodyWire :
    (fuel id got : ℕ) {content wire : Bytes} (d : Download) (rest : Bytes)
    → id < 2 ^ 32
    → IsOpen d.body
    → BodyWire id content wire
    → length wire < fuel
    → to_come d.conn ≡ wire ++ rest
    → (u : Source) × (join u.chunks ≡ rest)
      × (read_body fuel id got d
          ≡ ok (got + length content) (record {
            conn = record d.conn { source = u };
            body = record { written = d.body.written ++ content; grants = [] };
          }))
read_body-BodyWire zero id got d rest range ready w enough bytes = absurd (omega arith)
read_body-BodyWire (suc fuel) id got d rest range ready (last {chunk} e) enough bytes =
    read_body-data fuel id got chunk true d rest range e ready bytes
read_body-BodyWire (suc fuel) id got {content} {wire} d rest range ready
      (more chunk b content' wire' e w isc isw) enough bytes =
    let (u, left, one) =
      read_body-data fuel id got chunk false d (wire' ++ rest) range e ready
        (bytes ∙ ap (λ (x : Bytes). x ++ rest) isw ∙ append_assoc b wire' rest) in
    let d' : Download = record {
      conn = record d.conn { source = u };
      body = record { written = d.body.written ++ chunk; grants = [] };
    } in
    let (u', left', later) =
      read_body-BodyWire fuel id (got + length chunk) d' rest range refl w
        (omega (
          arith,
          ap length isw,
          length-append b wire',
          length-encode (data_frame id chunk false) e,
        ))
        left in
    (
      u',
      left',
      one ∙ later ∙ same_end got chunk content' (record d.conn { source = u' }) d.body.written isc,
    )
