-- ===== src/Tests/Exchange.antt =====
-- Whole exchanges between the client and the server.
use bhttp_1_http_in_binary.Base.{
  ℕ, ◌≡◌, ◌≢◌, ◌<◌, refl, sym, ap, ◌∙◌, arith, true, false, List, [], ◌∷◌, ◌++◌, Bytes, codes,
  success, failure, eof, not_found, All, ok, err, Error, Result, join, length, state_of,
  stream_zero, Outcome,
}
use bhttp_1_http_in_binary.Stream.{Sink, accept}
use bhttp_1_http_in_binary.Frame.{Frame, encode, needs_stream}
use bhttp_1_http_in_binary.Frame.Faults.{no_stream}
use bhttp_1_http_in_binary.Protocol.Headers.{Header}
use bhttp_1_http_in_binary.Protocol.Messages.{encode_request, code_invalid_stream_id}
use bhttp_1_http_in_binary.Conn.{Conn}
use bhttp_1_http_in_binary.Server.Resolver.{FileInfo, File, FileSystem, open_path}
use bhttp_1_http_in_binary.Server.Resolver.Contained.{open_path-IsUnder}
use bhttp_1_http_in_binary.Server.Mime.{content_type}
use bhttp_1_http_in_binary.Server.Requests.{file_headers}
use bhttp_1_http_in_binary.Server.Loop.{handle, stream_zero_message}
use bhttp_1_http_in_binary.Client.{Client, get, get_request, request_frame, new_client}
use bhttp_1_http_in_binary.Exchange.Received.{answer_of}
use bhttp_1_http_in_binary.Exchange.Fetch.{IsReady, Gets, serve_next, sent_since, get_file}
use bhttp_1_http_in_binary.Exchange.Pipeline.Steady.{IsWhole, IsSteady}
use bhttp_1_http_in_binary.Exchange.Pipeline.{Requests, Answered, handle-Answered}
use bhttp_1_http_in_binary.Exchange.Violations.{
  IsReported, reports_stream, IsErrorFrame, handle-reports,
}
use bhttp_1_http_in_binary.Tests.Server.{root, tree, path, hi_file, hi_info, open_path_path}

abbrev pub payload : Bytes
payload = 1 ∷ 0 ∷ 6 ∷ b'/' ∷ b'a' ∷ b'.' ∷ b't' ∷ b'x' ∷ b't' ∷ 0 ∷ []

abbrev pub request : Bytes
request = 0 ∷ 0 ∷ 0 ∷ 10 ∷ 1 ∷ 1 ∷ 0 ∷ 0 ∷ 0 ∷ 0 ∷ 0 ∷ 1 ∷ payload

pub encode_request_path : encode_request (get_request path []) ≡ success payload
unfolding encode_request bhttp_1_http_in_binary.Protocol.Utf8.valid_utf8
    bhttp_1_http_in_binary.Protocol.Headers.append_headers
    bhttp_1_http_in_binary.Protocol.Headers.append_loop bhttp_1_http_in_binary.Base.put_u16
encode_request_path = refl

pub encode-request_frame : encode (request_frame 1 payload) ≡ success request
unfolding encode needs_stream bhttp_1_http_in_binary.Base.put_u32
encode-request_frame = refl

-- A connection of the server on which a client's bytes arrive; it takes five bytes, then three,
-- then the rest.
abbrev pub at_server : List Bytes → Conn
at_server chunks = record {
  source = record { chunks = chunks; fault = eof };
  sink = record { written = []; grants = accept 5 ∷ accept 3 ∷ [] };
  half_closed = false;
  closed = false;
}

abbrev pub file_server : Conn
file_server = at_server (request ∷ [])

abbrev pub out : Sink
out = record { written = []; grants = [] }

-- The client's end: what the server writes is what comes.
abbrev pub client_of : Bytes → Client
client_of bytes = new_client (record {
  source = record { chunks = bytes ∷ []; fault = eof };
  sink = record { written = []; grants = [] };
  half_closed = false;
  closed = false;
})

pub client_of-IsReady : (bytes : Bytes) → IsReady (client_of bytes)
unfolding new_client
client_of-IsReady bytes = record {
  works = refl;
  has_streams = refl;
  positive = λ e. omega arith;
  in_range = omega arith;
  healthy = tt;
}

abbrev pub reader : Client
reader = client_of (sent_since file_server (serve_next tree root file_server))

get_file_example :
    Gets reader out request
      (answer_of 200 (file_headers (content_type (codes "a.txt")) 2) (codes "hi"))
      (codes "hi")
      []
      (get path [] (reader, out))
unfolding new_client
get_file_example =
    get_file tree root path [] reader out file_server [] []
      (client_of-IsReady (sent_since file_server (serve_next tree root file_server))) refl
      (omega arith) encode_request_path encode-request_frame refl refl hi_file hi_info (codes "hi")
      [] open_path_path (omega arith) refl refl

-- A tree with nothing in it.
abbrev pub bare : FileSystem
bare = record tree { open_file = λ p. failure not_found }

pub nothing_there : open_path bare root path ≡ failure not_found
unfolding open_path bhttp_1_http_in_binary.Server.Paths.starts_with_slash
    bhttp_1_http_in_binary.Protocol.Utf8.valid_utf8
    bhttp_1_http_in_binary.Server.Paths.has_double_slash
    bhttp_1_http_in_binary.Server.Paths.has_byte bhttp_1_http_in_binary.Server.Paths.split
    bhttp_1_http_in_binary.Base.bytes_eq bhttp_1_http_in_binary.Server.Paths.leads_up
    bhttp_1_http_in_binary.Server.Paths.relative bhttp_1_http_in_binary.Server.Paths.join_path
    bhttp_1_http_in_binary.Server.Resolver.trim_right
    bhttp_1_http_in_binary.Server.Resolver.trim_left
    bhttp_1_http_in_binary.Server.Paths.ends_with_slash
    bhttp_1_http_in_binary.Server.Resolver.missing_or
nothing_there = refl

abbrev pub misser : Client
misser = client_of (sent_since file_server (serve_next bare root file_server))

hi_file-IsWhole : IsWhole hi_file hi_info
hi_file-IsWhole = record {
  in_range = omega arith;
  content = codes "hi";
  extra = [];
  has_size = refl;
  has_bytes = refl;
}

same_bytes : (f : File) (info : FileInfo) → hi_file ≡ f → f.stat ≡ success info → IsWhole f info
same_bytes f info same stat =
    let described : success hi_info ≡ success info = ap (λ (x : File). x.stat) same ∙ stat in
    let is : hi_info ≡ info = cc in rw (← same, ← is) hi_file-IsWhole

success-inj_file : (f g : File) → ◌≡◌ {A = Result File} (success f) (success g) → f ≡ g
success-inj_file f g h = cc

pub tree-IsSteady : IsSteady tree root
tree-IsSteady url f info opened =
    let (p, is, under, resolved, stat, regular) = open_path-IsUnder tree root url opened in
    same_bytes f info (success-inj_file hi_file f is) stat

-- A request with the wrong flags, and the one above.
abbrev queue : List Frame
queue = record { typ = 1; flags = 3; stream_id = 7; payload = [] } ∷ request_frame 1 payload ∷ []

abbrev queue_bytes : Bytes
queue_bytes = 0 ∷ 0 ∷ 0 ∷ 0 ∷ 1 ∷ 3 ∷ 0 ∷ 0 ∷ 0 ∷ 0 ∷ 0 ∷ 7 ∷ request

queue-Requests : Requests queue queue_bytes
unfolding encode needs_stream bhttp_1_http_in_binary.Base.put_u32
queue-Requests = (
  0 ∷ 0 ∷ 0 ∷ 0 ∷ 1 ∷ 3 ∷ 0 ∷ 0 ∷ 0 ∷ 0 ∷ 0 ∷ 7 ∷ [],
  request,
  omega arith,
  refl,
  refl,
  refl,
  (request, [], omega arith, refl, refl, refl, refl),
)

-- The bytes arrive in two pieces.
abbrev queue_server : Conn
queue_server = at_server ((0 ∷ 0 ∷ []) ∷ (0 ∷ 0 ∷ 1 ∷ 3 ∷ 0 ∷ 0 ∷ 0 ∷ 0 ∷ 0 ∷ 7 ∷ request) ∷ [])

handle-Answered_example :
    (wire : Bytes) × (c : Conn) × (handle tree root queue_server ≡ ok tt c)
    × (c.sink.written ≡ wire)
    × Answered (7 ∷ 1 ∷ []) wire
handle-Answered_example =
    handle-Answered tree root tree-IsSteady queue queue_bytes queue_server queue-Requests refl refl
      (omega arith)

-- A DATA frame on stream 0.
abbrev bad_tail : Bytes
bad_tail = 0 ∷ 0 ∷ 0 ∷ 1 ∷ 3 ∷ 0 ∷ 0 ∷ 0 ∷ 0 ∷ 0 ∷ 0 ∷ 0 ∷ 9 ∷ []

bad_tail-IsReported : IsReported bad_tail code_invalid_stream_id stream_zero_message
unfolding bhttp_1_http_in_binary.Base.be_u32 needs_stream
bad_tail-IsReported = reports_stream (
    no_stream (0 ∷ 0 ∷ 0 ∷ 1 ∷ 3 ∷ 0 ∷ 0 ∷ 0 ∷ 0 ∷ 0 ∷ 0 ∷ 0 ∷ []) (9 ∷ []) [] refl refl refl
      (omega arith) refl refl)

abbrev bad_server : Conn
bad_server = at_server ((queue_bytes ++ bad_tail) ∷ [])

handle-reports_example :
    (wire : Bytes) × (b : Bytes) × (c : Conn) × Answered (7 ∷ 1 ∷ []) wire
    × IsErrorFrame code_invalid_stream_id stream_zero_message b
    × (handle tree root bad_server ≡ ok tt c)
    × (c.sink.written ≡ wire ++ b)
    × (c.closed ≡ true)
handle-reports_example =
    handle-reports tree root queue queue_bytes bad_tail code_invalid_stream_id stream_zero_message
      bad_server tree-IsSteady queue-Requests bad_tail-IsReported refl (omega arith)
