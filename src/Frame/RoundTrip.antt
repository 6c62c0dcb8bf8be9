-- ===== src/Frame/RoundTrip.antt =====
-- Reading what `Encode` wrote, in whatever pieces it arrives, and stepping over frames of types
-- that the reader does not know.
use bhttp_1_http_in_binary.Base.{
  ℕ, ◌+◌, length-append, ◌≤◌, ◌<◌, ◌^◌, ◌≡◌, ◌≢◌, refl, sym, ◌∙◌, ap, arith, true, false, Bytes, [],
  ◌++◌, append_assoc, Error, ok, success, length, join, put_u32, be_u32-put_u32,
}
use bhttp_1_http_in_binary.Stream.{Source}
use bhttp_1_http_in_binary.Stream.Flat.{Flat, flatten, view, flat}
use bhttp_1_http_in_binary.Stream.Simulation.{Simulates-ok}
use bhttp_1_http_in_binary.Frame.{
  Frame, IsFrame, max_payload, header_size, is_known, needs_stream, wire_header, encode,
}
use bhttp_1_http_in_binary.Frame.Reader.{
  declared, header_type, header_flags, header_stream, accept_frame, read, read_flat,
}
use bhttp_1_http_in_binary.Frame.Reader.Equations.{at_bytes, read-Simulates, read_flat-header}
use bhttp_1_http_in_binary.Frame.Reader.Outcomes.{
  round_skips, round_accepts, NextFrame, read_flat-NextFrame,
}

module _ (size typ flags stream : ℕ) where
  pub length-wire_header : length (wire_header size typ flags stream) ≡ header_size
  unfolding wire_header put_u32
  length-wire_header = refl

  pub declared-wire_header : size < 2 ^ 32 → declared (wire_header size typ flags stream) ≡ size
  unfolding wire_header
  declared-wire_header h = be_u32-put_u32 size _ h

  pub header_type-wire_header : header_type (wire_header size typ flags stream) ≡ typ
  unfolding wire_header put_u32
  header_type-wire_header = refl

  pub header_flags-wire_header : header_flags (wire_header size typ flags stream) ≡ flags
  unfolding wire_header put_u32
  header_flags-wire_header = refl

  pub header_stream-wire_header :
      stream < 2 ^ 32 → header_stream (wire_header size typ flags stream) ≡ stream
  unfolding wire_header put_u32
  header_stream-wire_header h = be_u32-put_u32 stream [] h

-- The reader on a header and a whole payload.
pub read_flat-unknown :
    (hdr payload : Bytes) (u : Flat)
    → length hdr ≡ header_size
    → length payload ≡ declared hdr
    → declared hdr ≤ max_payload
    → is_known (header_type hdr) ≡ false
    → read_flat (at_bytes u (hdr ++ (payload ++ u.bytes))) ≡ read_flat u
read_flat-unknown hdr payload u len whole fits unknown =
    read_flat-header hdr (at_bytes u (payload ++ u.bytes)) len
    ∙ round_skips hdr payload u whole fits unknown

pub read_flat-known :
    (hdr payload : Bytes) (u : Flat)
    → length hdr ≡ header_size
    → length payload ≡ declared hdr
    → declared hdr ≤ max_payload
    → is_known (header_type hdr) ≡ true
    → read_flat (at_bytes u (hdr ++ (payload ++ u.bytes))) ≡ accept_frame flat hdr payload u
read_flat-known hdr payload u len whole fits known =
    read_flat-header hdr (at_bytes u (payload ++ u.bytes)) len
    ∙ round_accepts hdr payload u whole fits known

-- What a successful `Encode` has checked, and what it wrote.
pub encode-success :
    (f : Frame) {b : Bytes}
    → encode f ≡ success b
    → (length f.payload ≤ max_payload)
      × (needs_stream f.typ ≡ true → f.stream_id ≢ 0)
      × (b ≡ wire_header (length f.payload) f.typ f.flags f.stream_id ++ f.payload)
unfolding encode
encode-success f h = (ground arith, (λ n z. ground arith), ground arith)

pub length-encode :
    (f : Frame) {b : Bytes} → encode f ≡ success b → length b ≡ header_size + length f.payload
length-encode f e =
    let (fits, nonzero, wire) = encode-success f e in
    let hdr = wire_header (length f.payload) f.typ f.flags f.stream_id in
    rw wire (
      omega (
        arith,
        length-append hdr f.payload,
        length-wire_header (length f.payload) f.typ f.flags f.stream_id,
      ))

-- With a header that says what it should, the frame that comes back is the one that was sent.
accept_frame-wire_header :
    (f : Frame) (u : Flat)
    → f.stream_id < 2 ^ 32
    → (needs_stream f.typ ≡ true → f.stream_id ≢ 0)
    → accept_frame flat (wire_header (length f.payload) f.typ f.flags f.stream_id) f.payload u
      ≡ ok f u
unfolding accept_frame
accept_frame-wire_header f u range nonzero =
    simp
      (
        header_type-wire_header,
        header_flags-wire_header,
        header_stream-wire_header (length f.payload) f.typ f.flags f.stream_id range,
      )
      (ground (arith, nonzero))

pub read_flat-encode :
    (f : Frame) {b : Bytes} (u : Flat)
    → IsFrame f
    → is_known f.typ ≡ true
    → encode f ≡ success b
    → read_flat (at_bytes u (b ++ u.bytes)) ≡ ok f u
read_flat-encode f u h known e =
    let (fits, nonzero, wire) = encode-success f e in
    let hdr = wire_header (length f.payload) f.typ f.flags f.stream_id in
    let size = declared-wire_header (length f.payload) f.typ f.flags f.stream_id (omega arith) in
    rw (wire, append_assoc)
      (read_flat-known hdr f.payload u (length-wire_header _ _ _ _) (omega (arith, size))
          (omega (arith, size)) (rw header_type-wire_header known)
        ∙ accept_frame-wire_header f u h.stream_range nonzero)

-- Reading what Encode wrote gives the same frame and leaves all that follows it, in whatever
-- pieces the bytes arrive.
pub read-encode :
    (f : Frame) {b : Bytes} (s : Source) (rest : Bytes)
    → IsFrame f
    → is_known f.typ ≡ true
    → encode f ≡ success b
    → join s.chunks ≡ b ++ rest
    → (u : Source) × (read s ≡ ok f u) × (join u.chunks ≡ rest) × (u.fault ≡ s.fault)
read-encode f {b} s rest h known e bytes =
    let t : Flat = record { bytes = rest; fault = s.fault } in
    let (u, r, left) =
      Simulates-ok s read-Simulates
        (ap (λ (x : Bytes). read_flat (at_bytes t x)) bytes ∙ read_flat-encode f t h known e) in
    (u, r, ap (λ (x : Flat). x.bytes) left, ap (λ (x : Flat). x.fault) left)

flatten_eq :
    (s : Source) {bs : Bytes} {e : Error}
    → join s.chunks ≡ bs
    → s.fault ≡ e
    → flatten s ≡ record { bytes = bs; fault = e }
flatten_eq s bytes fault = λ i. record { bytes = bytes i; fault = fault i }

-- What Read returns depends on the bytes that arrive and on how the stream ends, and not on the
-- pieces.
pub read_pieces :
    (s t : Source)
    → join s.chunks ≡ join t.chunks
    → s.fault ≡ t.fault
    → view (read s) ≡ view (read t)
read_pieces s t bytes fault =
    read-Simulates.at s ∙ ap read_flat (flatten_eq s bytes fault) ∙ sym (read-Simulates.at t)

-- A whole frame of an unknown type, whatever its flags, reserved bytes and stream, is skipped:
-- Read does what it does without it.
pub read_unknown :
    (hdr payload : Bytes) (s t : Source)
    → length hdr ≡ header_size
    → length payload ≡ declared hdr
    → declared hdr ≤ max_payload
    → is_known (header_type hdr) ≡ false
    → join s.chunks ≡ hdr ++ (payload ++ join t.chunks)
    → s.fault ≡ t.fault
    → view (read s) ≡ view (read t)
read_unknown hdr payload s t len whole fits unknown bytes fault =
    read-Simulates.at s
    ∙ ap read_flat (flatten_eq s bytes fault)
    ∙ read_flat-unknown hdr payload (flatten t) len whole fits unknown
    ∙ sym (read-Simulates.at t)

-- On every input, in any pieces, the result of Read is the one that the table of the wire format
-- gives for the bytes to come.
pub read-NextFrame : (s : Source) → NextFrame s.fault (join s.chunks) (view (read s))
read-NextFrame s = rw (read-Simulates.at s) (read_flat-NextFrame (flatten s))
