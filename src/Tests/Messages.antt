-- ===== src/Tests/Messages.antt =====
-- Messages: the payloads of the wire format, and the round trips on them.
use bhttp_1_http_in_binary.Base.{
  ◌≡◌, refl, arith, [], ◌∷◌, ◌++◌, Bytes, codes, success, bytes_eq, put_u16, be_u16, All, IsByte,
  length,
}
use bhttp_1_http_in_binary.Protocol.{take_bytes, u8, u16, finish}
use bhttp_1_http_in_binary.Protocol.Utf8.{valid_utf8}
use bhttp_1_http_in_binary.Protocol.Headers.{
  new_header, table_id, name_bytes, append_headers, append_loop, append_header, valid_custom_name,
  all_custom, custom_char, read_headers, read_loop, read_header, read_id, read_name,
}
use bhttp_1_http_in_binary.Protocol.Messages.{
  Request, Response, ConnError, encode_request, decode_request, encode_response, decode_response,
  encode_conn_error, decode_conn_error, valid_status,
}
use bhttp_1_http_in_binary.Protocol.Messages.Accepted.{Encodes, decode_request-Encodes}
use bhttp_1_http_in_binary.Protocol.Messages.RoundTrip.{
  decode_request-encode_request, decode_response-encode_response,
  decode_conn_error-encode_conn_error,
}

-- GET /a with a header of the table and a custom one.
abbrev get_a : Request
get_a = record {
  method = 1;
  path = codes "/a";
  headers = new_header (codes "server") (codes "s") ∷ new_header (codes "x-1") [] ∷ [];
}

abbrev get_a_bytes : Bytes
get_a_bytes =
    1 ∷ 0 ∷ 2 ∷ b'/' ∷ b'a' ∷ 2 ∷ 3 ∷ 0 ∷ 1 ∷ b's' ∷ 0 ∷ 0 ∷ 3 ∷ b'x' ∷ b'-' ∷ b'1' ∷ 0 ∷ 0 ∷ []

encode_get_a : encode_request get_a ≡ success get_a_bytes
unfolding encode_request valid_utf8 append_headers append_loop append_header name_bytes table_id
    bytes_eq valid_custom_name all_custom custom_char put_u16
encode_get_a = refl

-- An identifier that the table does not have is consumed and left out.
abbrev future_header : Bytes
future_header = 0 ∷ 200 ∷ 1 ∷ 9 ∷ 0 ∷ 1 ∷ 7 ∷ []

decode_future_header :
    decode_response future_header ≡ success (record { status = 200; headers = [] })
unfolding decode_response valid_status read_headers read_loop read_header read_id read_name table_id
    bytes_eq valid_custom_name all_custom custom_char be_u16 u8 u16 take_bytes finish
decode_future_header = refl

-- A custom header under a name of the table is left out too, so that it cannot pass for it.
abbrev spoofed_length : Bytes
spoofed_length = 0 ∷ 200 ∷ 1 ∷ (0 ∷ 0 ∷ 14 ∷ codes "content-length" ++ (0 ∷ 1 ∷ b'5' ∷ []))

decode_spoofed_length :
    decode_response spoofed_length ≡ success (record { status = 200; headers = [] })
unfolding decode_response valid_status read_headers read_loop read_header read_id read_name table_id
    bytes_eq valid_custom_name all_custom custom_char be_u16 u8 u16 take_bytes finish
decode_spoofed_length = refl

abbrev not_found_response : Response
not_found_response = record {
  status = 404;
  headers = new_header (codes "content-length") (codes "0") ∷ [];
}

abbrev not_found_bytes : Bytes
not_found_bytes = 1 ∷ 148 ∷ 1 ∷ 2 ∷ 0 ∷ 1 ∷ b'0' ∷ []

encode_not_found : encode_response not_found_response ≡ success not_found_bytes
unfolding encode_response valid_status append_headers append_loop append_header name_bytes table_id
    bytes_eq put_u16
encode_not_found = refl

abbrev too_large_error : ConnError
too_large_error = record { code = 1; message = codes "too large" }

encode_too_large_error :
    encode_conn_error too_large_error ≡ success (0 ∷ 1 ∷ 0 ∷ 9 ∷ codes "too large")
unfolding encode_conn_error put_u16
encode_too_large_error = refl

decode_request-encode_request_example : decode_request get_a_bytes ≡ success get_a
decode_request-encode_request_example = decode_request-encode_request get_a encode_get_a

decode_response-encode_response_example :
    decode_response not_found_bytes ≡ success not_found_response
decode_response-encode_response_example =
    decode_response-encode_response not_found_response encode_not_found

decode_conn_error-encode_conn_error_example :
    decode_conn_error (0 ∷ 1 ∷ 0 ∷ 9 ∷ codes "too large") ≡ success too_large_error
decode_conn_error-encode_conn_error_example =
    decode_conn_error-encode_conn_error too_large_error (omega arith) encode_too_large_error

-- GET /a with a header whose identifier nobody knows, and one of the table.
abbrev newer_bytes : Bytes
newer_bytes = 1 ∷ 0 ∷ 2 ∷ b'/' ∷ b'a' ∷ 2 ∷ 200 ∷ 0 ∷ 1 ∷ b'z' ∷ 3 ∷ 0 ∷ 1 ∷ b's' ∷ []

abbrev newer : Request
newer = record {
  method = 1;
  path = codes "/a";
  headers = new_header (codes "server") (codes "s") ∷ [];
}

decode_newer : decode_request newer_bytes ≡ success newer
unfolding decode_request u8 take_bytes u16 be_u16 valid_utf8 read_headers read_loop read_header
    read_id read_name finish
decode_newer = refl

newer_bytes-IsByte : All IsByte newer_bytes
newer_bytes-IsByte = omega arith

decode_request-Encodes_example : Encodes (length newer_bytes) newer
decode_request-Encodes_example =
    decode_request-Encodes newer_bytes newer_bytes-IsByte (omega arith) decode_newer
