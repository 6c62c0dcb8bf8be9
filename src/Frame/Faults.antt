-- ===== src/Frame/Faults.antt =====
-- The two faults of a frame that the server and the client report.
use bhttp_1_http_in_binary.Base.{
  ℕ, ◌<◌, ◌≤◌, ◌≡◌, ap, ◌∙◌, arith, true, Bytes, ◌++◌, Error, oversize, stream_zero, err, length,
  join,
}
use bhttp_1_http_in_binary.Stream.{Source}
use bhttp_1_http_in_binary.Stream.Flat.{Flat, flatten}
use bhttp_1_http_in_binary.Stream.Simulation.{Simulates-err}
use bhttp_1_http_in_binary.Frame.{header_size, max_payload, is_known, needs_stream}
use bhttp_1_http_in_binary.Frame.Reader.{
  read, read_flat, declared, header_type, header_stream, accept_frame,
}
use bhttp_1_http_in_binary.Frame.Reader.Equations.{at_bytes, read-Simulates, read_flat-header}
use bhttp_1_http_in_binary.Frame.Reader.Outcomes.{round_too_large, round_accepts}

-- `IsFault bs e`: the next frame is refused with the error `e`, and the stream is at an end for us.
pub data IsFault : Bytes → Error → Type 0 where
  too_long :
      {bs : Bytes} (hdr rest : Bytes)
      → length hdr ≡ header_size
      → bs ≡ hdr ++ rest
      → max_payload < declared hdr
      → IsFault bs (oversize (header_type hdr) (declared hdr))
  no_stream :
      {bs : Bytes} (hdr payload rest : Bytes)
      → length hdr ≡ header_size
      → bs ≡ hdr ++ (payload ++ rest)
      → length payload ≡ declared hdr
      → declared hdr ≤ max_payload
      → needs_stream (header_type hdr) ≡ true
      → header_stream hdr ≡ 0
      → IsFault bs stream_zero

needs_stream-is_known : (t : ℕ) → needs_stream t ≡ true → is_known t ≡ true
unfolding needs_stream is_known
needs_stream-is_known t h = ground arith

read_flat-IsFault :
    (t : Flat) {e : Error}
    → IsFault t.bytes e
    → (bs : Bytes) × (read_flat t ≡ err e (at_bytes t bs))
read_flat-IsFault t (too_long hdr rest size split big) = (
  rest,
  ap (λ (x : Bytes). read_flat (at_bytes t x)) split
      ∙ read_flat-header hdr (at_bytes t rest) size
      ∙ round_too_large hdr (at_bytes t rest) big,
)
read_flat-IsFault t (no_stream hdr payload rest size split whole fits needs zero_id) = (
  rest,
  ap (λ (x : Bytes). read_flat (at_bytes t x)) split
      ∙ read_flat-header hdr (at_bytes t (payload ++ rest)) size
      ∙ round_accepts hdr payload (at_bytes t rest) whole fits
          (needs_stream-is_known (header_type hdr) needs)
      ∙ (unfold accept_frame in ground arith),
)

-- Read refuses such a frame, in whatever pieces it arrives.
pub read-IsFault :
    (s : Source) {e : Error} → IsFault (join s.chunks) e → (u : Source) × (read s ≡ err e u)
read-IsFault s h =
    let (bs, r) = read_flat-IsFault (flatten s) h in
    let (u, e, left) = Simulates-err s read-Simulates r in (u, e)
