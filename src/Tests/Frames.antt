-- ===== src/Tests/Frames.antt =====
-- Frames: encodings, reads and writes that can be followed in the source.
use bhttp_1_http_in_binary.Base.{
  ◌≡◌, refl, arith, true, false, All, [], ◌∷◌, ◌++◌, List, Bytes, eof, timeout, truncated, oversize,
  success, failure, stream_zero, ok, err, join, put_u32, be_u32,
}
use bhttp_1_http_in_binary.Stream.{Source, Sink, accept, refuse, chunked, short_read}
use bhttp_1_http_in_binary.Stream.Flat.{view}
use bhttp_1_http_in_binary.Frame.{Frame, IsFrame, encode, is_known, needs_stream}
use bhttp_1_http_in_binary.Frame.Reader.{read, header_error, truncated_or}
use bhttp_1_http_in_binary.Frame.Reader.Outcomes.{NextFrame}
use bhttp_1_http_in_binary.Frame.RoundTrip.{read-encode, read_pieces, read_unknown, read-NextFrame}
use bhttp_1_http_in_binary.Frame.Writer.{write}
use bhttp_1_http_in_binary.Frame.Writer.Delivery.{Delivers, Advances, write-Delivers, write_sends}

-- DATA + END_STREAM on stream 1 with the body "hi".
abbrev hi : Frame
hi = record { typ = 0x03; flags = 0x01; stream_id = 1; payload = b'h' ∷ b'i' ∷ [] }

abbrev hi_bytes : Bytes
hi_bytes = 0 ∷ 0 ∷ 0 ∷ 2 ∷ 3 ∷ 1 ∷ 0 ∷ 0 ∷ 0 ∷ 0 ∷ 0 ∷ 1 ∷ b'h' ∷ b'i' ∷ []

encode-hi : encode hi ≡ success hi_bytes
unfolding encode needs_stream put_u32
encode-hi = refl

encode_stream_zero : encode (record hi { stream_id = 0 }) ≡ failure stream_zero
unfolding encode needs_stream
encode_stream_zero = refl

-- The same bytes in five pieces, with the start of a next header behind them.
abbrev pieces : List Bytes
pieces =
    (0 ∷ 0 ∷ [])
    ∷ []
    ∷ (0 ∷ 2 ∷ 3 ∷ 1 ∷ 0 ∷ 0 ∷ 0 ∷ 0 ∷ 0 ∷ 1 ∷ b'h' ∷ [])
    ∷ (b'i' ∷ 0 ∷ [])
    ∷ (0 ∷ [])
    ∷ []

abbrev in_pieces : Source
in_pieces = record { chunks = pieces; fault = eof }

abbrev in_one : Source
in_one = record { chunks = (hi_bytes ++ (0 ∷ 0 ∷ [])) ∷ []; fault = eof }

-- A frame of type 0x7e with three bytes, flags and reserved bytes set, on stream 0.
abbrev noise_header : Bytes
noise_header = 0 ∷ 0 ∷ 0 ∷ 3 ∷ 0x7e ∷ 0xff ∷ 9 ∷ 9 ∷ 0 ∷ 0 ∷ 0 ∷ 0 ∷ []

abbrev noise_payload : Bytes
noise_payload = 1 ∷ 2 ∷ 3 ∷ []

abbrev with_noise : Source
with_noise = record { chunks = noise_header ∷ noise_payload ∷ pieces; fault = eof }

read-hi : read in_pieces ≡ ok hi (record { chunks = (0 ∷ []) ∷ (0 ∷ []) ∷ []; fault = eof })
unfolding read chunked is_known needs_stream be_u32 header_error truncated_or short_read
read-hi = refl

read_cut :
    (read (record { chunks = (0 ∷ []) ∷ []; fault = eof })
      ≡ err truncated (record { chunks = []; fault = eof }))
    × (read (record { chunks = []; fault = eof }) ≡ err eof (record { chunks = []; fault = eof }))
    × (read (record { chunks = (0 ∷ []) ∷ []; fault = timeout })
        ≡ err timeout (record { chunks = []; fault = timeout }))
unfolding read chunked is_known needs_stream be_u32 header_error truncated_or short_read
read_cut = (refl, refl, refl)

read_oversize :
    read (record {
      chunks = (0 ∷ 0 ∷ 0x40 ∷ 1 ∷ 5 ∷ 0 ∷ 0 ∷ 0 ∷ 0 ∷ 0 ∷ 0 ∷ 0 ∷ 7 ∷ []) ∷ [];
      fault = eof;
    })
    ≡ err (oversize 5 16385) (record { chunks = (7 ∷ []) ∷ []; fault = eof })
unfolding read chunked is_known needs_stream be_u32 header_error truncated_or short_read
read_oversize = refl

is_known_hi : is_known 0x03 ≡ true
unfolding is_known
is_known_hi = refl

is_known_noise : is_known 0x7e ≡ false
unfolding is_known
is_known_noise = refl

IsFrame-hi : IsFrame hi
IsFrame-hi = omega arith

read-encode_example :
    (u : Source) × (read in_pieces ≡ ok hi u) × (join u.chunks ≡ 0 ∷ 0 ∷ []) × (u.fault ≡ eof)
read-encode_example = read-encode hi in_pieces (0 ∷ 0 ∷ []) IsFrame-hi is_known_hi encode-hi refl

read_pieces_example : view (read in_pieces) ≡ view (read in_one)
read_pieces_example = read_pieces in_pieces in_one refl refl

read_unknown_example : view (read with_noise) ≡ view (read in_pieces)
unfolding be_u32
read_unknown_example =
    read_unknown noise_header noise_payload with_noise in_pieces refl refl (omega arith)
      is_known_noise refl refl

read-NextFrame_example : NextFrame eof (join pieces) (view (read in_pieces))
read-NextFrame_example = read-NextFrame in_pieces

-- A writer that takes five bytes, then one, and then the rest.
abbrev slow : Sink
slow = record { written = []; grants = accept 5 ∷ accept 1 ∷ [] }

-- A writer that fails after five bytes.
abbrev failing : Sink
failing = record { written = []; grants = accept 2 ∷ refuse 3 timeout ∷ [] }

write-failing :
    write hi failing ≡ err timeout (record { written = 0 ∷ 0 ∷ 0 ∷ 2 ∷ 3 ∷ []; grants = [] })
unfolding write encode needs_stream put_u32
write-failing = refl

write-Delivers_example : Delivers [] hi_bytes (write hi failing)
write-Delivers_example = write-Delivers hi failing encode-hi

write_sends_example :
    (v : Sink) × (write hi slow ≡ ok tt v) × (v.written ≡ hi_bytes) × All Advances v.grants
write_sends_example = write_sends hi slow encode-hi (omega arith)
