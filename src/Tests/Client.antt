-- ===== src/Tests/Client.antt =====
-- The client's streams, its lengths, and how it fails.
use bhttp_1_http_in_binary.Base.{
  ℕ, ◌≡◌, ◌<◌, refl, arith, true, false, List, [], ◌∷◌, Bytes, codes, success, failure, eof,
  wrong_length, wrapped, closed_early, All, ok, err, ◌⊎◌, ◌↔◌, Error,
}
use bhttp_1_http_in_binary.Stream.{Source, Sink}
use bhttp_1_http_in_binary.Protocol.Headers.{Header, new_header, content_length}
use bhttp_1_http_in_binary.Protocol.Messages.{encode_request}
use bhttp_1_http_in_binary.Conn.{Conn}
use bhttp_1_http_in_binary.Client.{Client, Call, get, get_request, take_stream, new_client}
use bhttp_1_http_in_binary.Client.Lengths.{
  check_length, AllAgree, check_length_iff, check_value, check_value-format_int,
}
use bhttp_1_http_in_binary.Client.Streams.{
  Ascending, streams_used, streams_used-Ascending, IsDropped, get-err,
}
use bhttp_1_http_in_binary.Base.Decimal.{format_int}

abbrev two_lengths : List Header
two_lengths =
    new_header content_length (codes "42")
    ∷ new_header (codes "server") (codes "x")
    ∷ new_header content_length (codes "042")
    ∷ []

check_length_iff_example : (check_length two_lengths 42 ≡ success tt) ↔ AllAgree two_lengths 42
check_length_iff_example = check_length_iff two_lengths 42

check_length_wrong : check_length two_lengths 43 ≡ failure wrong_length
unfolding check_length bhttp_1_http_in_binary.Base.bytes_eq
check_length_wrong = refl

check_value-format_int_example : check_value (format_int 16385) 16385 ≡ success tt
check_value-format_int_example = check_value-format_int 16385 (omega arith)

-- A server that hangs up without a word.
abbrev silent : Conn
silent = record {
  source = record { chunks = []; fault = eof };
  sink = record { written = []; grants = [] };
  half_closed = false;
  closed = false;
}

-- The last stream but one is next.
abbrev old_client : Client
old_client = record { conn = silent; next = 0xfffffffe; exhausted = false; broken = false }

abbrev nowhere : Sink
nowhere = record { written = []; grants = [] }

abbrev calls : List (Bytes × List Header)
calls = (codes "", []) ∷ (codes "", []) ∷ (codes "/a", []) ∷ (codes "/b", []) ∷ []

streams_used-Ascending_example : Ascending 0xfffffffe (streams_used calls (old_client, nowhere))
streams_used-Ascending_example = streams_used-Ascending calls old_client nowhere (omega arith)

-- Two requests that cannot be built take the last two streams.
last_two_streams : streams_used calls (old_client, nowhere) ≡ 0xfffffffe ∷ 0xffffffff ∷ []
unfolding get encode_request
last_two_streams = refl

abbrev after_silence : Client
after_silence = record old_client {
  next = 0xffffffff;
  broken = true;
  conn = record silent {
    sink = record {
      written =
          0 ∷ 0 ∷ 0 ∷ 6 ∷ 1 ∷ 1 ∷ 0 ∷ 0 ∷ 0xff ∷ 0xff ∷ 0xff ∷ 0xfe ∷ 1 ∷ 0 ∷ 2 ∷ b'/' ∷ b'a' ∷ 0
          ∷ [];
      grants = [];
    };
    closed = true;
  };
}

get_silence : get (codes "/a") [] (old_client, nowhere) ≡ err closed_early (after_silence, nowhere)
unfolding get encode_request bhttp_1_http_in_binary.Protocol.Utf8.valid_utf8
    bhttp_1_http_in_binary.Protocol.Headers.append_headers
    bhttp_1_http_in_binary.Protocol.Headers.append_loop bhttp_1_http_in_binary.Base.put_u16
    bhttp_1_http_in_binary.Conn.write_conn bhttp_1_http_in_binary.Frame.Writer.write
    bhttp_1_http_in_binary.Frame.encode bhttp_1_http_in_binary.Frame.needs_stream
    bhttp_1_http_in_binary.Base.put_u32 bhttp_1_http_in_binary.Client.read_frame
    bhttp_1_http_in_binary.Conn.read_conn bhttp_1_http_in_binary.Frame.Reader.read
    bhttp_1_http_in_binary.Stream.chunked bhttp_1_http_in_binary.Frame.Reader.header_error
    bhttp_1_http_in_binary.Stream.short_read
get_silence = refl

get-err_example :
    ((false ≡ true) × (after_silence ≡ old_client))
    ⊎ (((x : Error) × (encode_request (get_request (codes "/a") []) ≡ failure x)
          × (after_silence ≡ take_stream old_client))
        ⊎ IsDropped after_silence)
get-err_example =
    get-err (codes "/a") [] old_client after_silence nowhere nowhere closed_early get_silence
