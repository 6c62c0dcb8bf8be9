-- ===== src/Frame.antt =====
-- internal/frame/frame.go: frames and their encoding. A byte, a uint32 and a []byte are numbers
-- and lists of numbers; that they are in range is `IsFrame`.
pub mod Reader
pub mod Writer
pub mod RoundTrip
pub mod Progress
pub mod Faults
use bhttp_1_http_in_binary.Base.{
  ℕ, ◌≤◌, ◌<◌, ◌^◌, ◌&&◌, Bool, ◌∷◌, ◌++◌, Bytes, IsByte, All, Result, success, failure,
  payload_too_large, stream_zero, ltb, leb, ◌==◌, if◌then◌else◌, length, bit_and, put_u32,
}

abbrev pub header_size : ℕ
header_size = 12

abbrev pub max_payload : ℕ
max_payload = 16384

-- The values of frame.Type.
abbrev pub type_request : ℕ
type_request = 0x01

abbrev pub type_response : ℕ
type_response = 0x02

abbrev pub type_data : ℕ
type_data = 0x03

abbrev pub type_error : ℕ
type_error = 0x04

unfoldable pub is_known : ℕ → Bool
is_known t = leb type_request t && leb t type_error

unfoldable pub needs_stream : ℕ → Bool
needs_stream t = leb type_request t && leb t type_data

abbrev pub flag_end_stream : ℕ
flag_end_stream = 0x01

-- `f.Has(mask)`
unfoldable pub has_flag : ℕ → ℕ → Bool
has_flag flags mask = bit_and flags mask == mask

pub record Frame : Type 0 where
  pub typ : ℕ
  pub flags : ℕ
  pub stream_id : ℕ
  pub payload : Bytes

-- The ranges of the Go types.
pub record IsFrame (f : Frame) : Type 0 where
  pub typ_byte : IsByte f.typ
  pub flags_byte : IsByte f.flags
  pub stream_range : f.stream_id < 2 ^ 32

-- The header as it goes on the wire: length, type, flags, two reserved bytes, stream.
unfoldable pub wire_header : ℕ → ℕ → ℕ → ℕ → Bytes
wire_header size typ flags stream = put_u32 size ++ (typ ∷ flags ∷ 0 ∷ 0 ∷ put_u32 stream)

unfoldable pub encode : Frame → Result Bytes
unfolding wire_header
encode f =
    if ltb max_payload (length f.payload)
    then failure payload_too_large
    else if needs_stream f.typ && f.stream_id == 0
    then failure stream_zero
    else success (wire_header (length f.payload) f.typ f.flags f.stream_id ++ f.payload)
