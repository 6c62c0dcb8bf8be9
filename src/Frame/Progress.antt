-- ===== src/Frame/Progress.antt =====
-- What a frame that was read says of the bytes: they get fewer, and the frame is one that the
-- protocol allows.
use bhttp_1_http_in_binary.Base.{
  ◌+◌, ◌≤◌, ◌≡◌, ◌≢◌, ap, arith, true, Bytes, Error, Outcome, ok, length, length-append, join, ◌++◌,
}
use bhttp_1_http_in_binary.Stream.{Source}
use bhttp_1_http_in_binary.Stream.Flat.{Flat, flatten, view}
use bhttp_1_http_in_binary.Frame.{Frame, header_size, is_known, needs_stream}
use bhttp_1_http_in_binary.Frame.Reader.{read}
use bhttp_1_http_in_binary.Frame.Reader.Outcomes.{
  NextFrame, frame_of, no_header, too_large, cut_payload, skips, zero_stream, frame,
}
use bhttp_1_http_in_binary.Frame.RoundTrip.{read-NextFrame}

pub record Gained (f : Frame) (before left : Bytes) : Type 0 where
  pub known : is_known f.typ ≡ true
  pub has_stream : needs_stream f.typ ≡ true → f.stream_id ≢ 0
  pub shorter : header_size + length f.payload + length left ≤ length before

NextFrame-Gained :
    {fault : Error} {bs : Bytes} {o : Outcome Flat Frame} (f : Frame) (t : Flat)
    → NextFrame fault bs o
    → o ≡ ok f t
    → Gained f bs t.bytes
NextFrame-Gained f t (no_header short is) e = cc
NextFrame-Gained f t (too_large hdr rest size split big is) e = cc
NextFrame-Gained f t (cut_payload hdr rest size split fits cut is) e = cc
NextFrame-Gained f t (skips hdr payload rest size split len fits unknown later) e =
    let g = NextFrame-Gained f t later e in
    record {
      known = g.known;
      has_stream = g.has_stream;
      shorter = omega (
        arith,
        g.shorter,
        ap length split,
        length-append hdr (payload ++ rest),
        length-append payload rest,
      );
    }
NextFrame-Gained f t (zero_stream hdr payload rest size split len fits needs zero_id is) e = cc
NextFrame-Gained {fault} f t (frame hdr payload rest size split len fits known nonzero is) e =
    let got : frame_of hdr payload ≡ f = cc in
    let rest_is : record { bytes = rest; fault = fault } ≡ t = cc in
    rw (← got, ← rest_is)
      (record {
        known = known;
        has_stream = λ n z. omega (arith, nonzero n);
        shorter = omega (
          arith,
          ap length split,
          length-append hdr (payload ++ rest),
          length-append payload rest,
        );
      })

-- A frame that was read took its twelve bytes of header and its payload at least.
pub read-Gained :
    (s u : Source) (f : Frame) → read s ≡ ok f u → Gained f (join s.chunks) (join u.chunks)
read-Gained s u f e = NextFrame-Gained f (flatten u) (read-NextFrame s) (ap view e)
