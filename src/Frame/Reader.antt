-- ===== src/Frame/Reader.antt =====
-- internal/frame/reader.go: reading the next frame of a known type. The loop takes fuel; a round
-- reads twelve bytes at least, so one more than the bytes to come is enough.
pub mod Equations
pub mod Outcomes
use bhttp_1_http_in_binary.Base.{
  ℕ, zero, suc, not, ◌&&◌, Bytes, Exec, Error, eof, unexpected_eof, truncated, oversize,
  stream_zero, out_of_fuel, pure, fail, map_error, ◌>>=◌, ◌>>◌, ltb, ◌==◌, if◌then◌else◌, length,
  drop, get_or, join, be_u32,
}
use bhttp_1_http_in_binary.Stream.{Source, ByteReader, chunked}
use bhttp_1_http_in_binary.Stream.Flat.{Flat, flat}
use bhttp_1_http_in_binary.Stream.Simulation.{Simulates, simulation}
use bhttp_1_http_in_binary.Frame.{Frame, header_size, max_payload, is_known, needs_stream}

-- A short header is a truncated frame; a clean end stays io.EOF.
unfoldable pub header_error : Error → Error
header_error unexpected_eof = truncated
header_error e = e

unfoldable pub truncated_or : Error → Error
truncated_or eof = truncated
truncated_or unexpected_eof = truncated
truncated_or e = e

-- The fields of the header: hdr[0:4], hdr[4], hdr[5], hdr[8:12].
abbrev pub declared : Bytes → ℕ
declared hdr = be_u32 hdr

abbrev pub header_type : Bytes → ℕ
header_type hdr = get_or hdr 4 0

abbrev pub header_flags : Bytes → ℕ
header_flags hdr = get_or hdr 5 0

abbrev pub header_stream : Bytes → ℕ
header_stream hdr = be_u32 (drop 8 hdr)

module _ {S : Type 0} (r : ByteReader S) where
  -- The rest of the round for a known type, with the payload read.
  unfoldable pub accept_frame : Bytes → Bytes → Exec S Frame
  accept_frame hdr payload =
      if needs_stream (header_type hdr) && header_stream hdr == 0
      then fail stream_zero
      else pure (record {
        typ = header_type hdr;
        flags = header_flags hdr;
        stream_id = header_stream hdr;
        payload = payload;
      })

  -- One header, and `again` for `continue`.
  unfoldable pub after_header : Exec S Frame → Bytes → Exec S Frame
  unfolding accept_frame
  after_header again hdr =
      if ltb max_payload (declared hdr)
      then fail (oversize (header_type hdr) (declared hdr))
      else if not (is_known (header_type hdr))
      then map_error truncated_or (r.copy_n (declared hdr)) >> again
      else (map_error truncated_or (r.read_full (declared hdr)) >>= accept_frame hdr)

  unfoldable pub read_loop : ℕ → Exec S Frame
  read_loop zero = fail out_of_fuel
  read_loop (suc fuel) =
      map_error header_error (r.read_full header_size) >>= after_header (read_loop fuel)

unfoldable pub read : Exec Source Frame
unfolding read_loop after_header
read s = read_loop chunked (suc (length (join s.chunks))) s

-- The same on the plain bytes.
unfoldable pub read_flat : Exec Flat Frame
unfolding read_loop after_header
read_flat s = read_loop flat (suc (length s.bytes)) s
