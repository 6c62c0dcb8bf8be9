-- ===== src/Protocol.antt =====
-- internal/protocol/protocol.go: limits, and the cursor that walks a payload. The cursor's slice
-- is the state of an `Exec Bytes`.
pub mod Cursor
pub mod Utf8
pub mod Headers
pub mod Messages
use bhttp_1_http_in_binary.Base.{
  ℕ, Bytes, Exec, ok, err, pure, malformed, ◌>>=◌, ltb, ◌==◌, if◌then◌else◌, length, take, drop,
  get_or, be_u16,
}

abbrev pub max_path_len : ℕ
max_path_len = 4096

abbrev pub max_headers : ℕ
max_headers = 255

abbrev pub max_custom_name_len : ℕ
max_custom_name_len = 255

abbrev pub max_header_value_len : ℕ
max_header_value_len = 0xffff

abbrev pub max_frame_payload : ℕ
max_frame_payload = 16384

-- The only value of protocol.Method.
abbrev pub method_get : ℕ
method_get = 0x01

-- `c.take(n)`; a length is never negative here.
unfoldable pub take_bytes : ℕ → Exec Bytes Bytes
take_bytes n c = if ltb (length c) n then err malformed c else ok (take n c) (drop n c)

unfoldable pub u8 : Exec Bytes ℕ
u8 = do b ← take_bytes 1; pure (get_or b 0 0)

unfoldable pub u16 : Exec Bytes ℕ
u16 = do b ← take_bytes 2; pure (be_u16 b)

unfoldable pub finish : Exec Bytes (Unit {0})
finish c = if length c == 0 then ok tt c else err malformed c
