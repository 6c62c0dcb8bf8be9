-- ===== src/Exchange/Fetch.antt =====
-- One request from end to end: the client's `Get` against the server's `serveRequest`.
use bhttp_1_http_in_binary.Base.{
  ℕ, ◌<◌, ◌^◌, ◌≡◌, ◌≢◌, refl, arith, true, false, List, [], ◌++◌, Bytes, success, failure, length,
  Exec, Outcome, ok, ◌>>=◌, join, drop, drop-append, state_of, bytes_eq, Error, not_found, bad_path,
}
use bhttp_1_http_in_binary.Stream.{Source, Sink}
use bhttp_1_http_in_binary.Frame.{IsFrame, encode, is_known, has_flag}
use bhttp_1_http_in_binary.Frame.RoundTrip.{read-encode}
use bhttp_1_http_in_binary.Protocol.Headers.{Header}
use bhttp_1_http_in_binary.Protocol.Messages.{encode_request, valid_status}
use bhttp_1_http_in_binary.Protocol.Messages.RoundTrip.{decode_request-encode_request}
use bhttp_1_http_in_binary.Conn.{Conn, read_conn}
use bhttp_1_http_in_binary.Server.Paths.{FilePath}
use bhttp_1_http_in_binary.Server.Resolver.{FileInfo, File, FileSystem, open_path}
use bhttp_1_http_in_binary.Server.Mime.{content_type, length-content_type}
use bhttp_1_http_in_binary.Server.Requests.{
  serve_request, answer_request, answer_miss, wrong_flags, file_headers, status_headers,
  send_status,
}
use bhttp_1_http_in_binary.Client.{
  Client, Answer, Call, Download, get_request, get, exchange, request_frame, take_stream,
}
use bhttp_1_http_in_binary.Client.Lengths.{check_length, check_value, check_value-format_int}
use bhttp_1_http_in_binary.Exchange.{AnswerWire}
use bhttp_1_http_in_binary.Exchange.Sent.{Answers, send_file-Answers, send_status-Answers}
use bhttp_1_http_in_binary.Exchange.Sent.Body.{IsHealthy, write_conn-Sends}
use bhttp_1_http_in_binary.Exchange.Received.{answer_of, read_answer-AnswerWire}
use bhttp_1_http_in_binary.Exchange.Bodies.{to_come, IsOpen}

-- A client that can send.
pub record IsReady (c : Client) : Type 0 where
  pub works : c.broken ≡ false
  pub has_streams : c.exhausted ≡ false
  pub positive : c.next ≢ 0
  pub in_range : c.next < 2 ^ 32
  pub healthy : IsHealthy c.conn

-- `Get` returned an answer, and wrote the content and no more.
pub record Gets (c : Client) (body : Sink) (request : Bytes) (a : Answer) (content rest : Bytes)
    (o : Outcome Call Answer) : Type 0 where
  pub conn : Conn
  pub out : Sink
  pub result : o ≡ ok a (record (take_stream c) { conn = conn }, out)
  pub written : out.written ≡ body.written ++ content
  pub sent : conn.sink.written ≡ c.conn.sink.written ++ request
  pub left : to_come conn ≡ rest
  pub is_open : IsOpen out
  pub healthy : IsHealthy conn

module _ (path : Bytes) (headers : List Header) (c : Client) (body : Sink) (ready : IsReady c)
    (is_open : IsOpen body) {payload request : Bytes}
    (asked : encode_request (get_request path headers) ≡ success payload)
    (framed : encode (request_frame c.next payload) ≡ success request) where
  pub get-Answers :
      (status : ℕ) (hs : List Header) (content answer rest : Bytes)
      → AnswerWire c.next status hs content answer
      → check_length hs (length content) ≡ success tt
      → to_come c.conn ≡ answer ++ rest
      → Gets c body request (answer_of status hs content) content rest (get path headers (c, body))
  unfolding get exchange
  get-Answers status hs content answer rest w agree bytes =
      let one = write_conn-Sends (request_frame c.next payload) c.conn framed ready.healthy in
      let d : Download = record { conn = record c.conn { sink = one.sink }; body = body } in
      let two =
        read_answer-AnswerWire c.next status hs d rest ready.in_range is_open w agree bytes in
      record {
        conn = record c.conn { sink = one.sink; source = two.source };
        out = two.body;
        result =
            rw (ready.works, ready.has_streams) (rw asked (rw one.result (rw two.result refl)));
        written = two.written;
        sent = one.written;
        left = two.left;
        is_open = two.is_open;
        healthy = one.healthy;
      }

-- The lengths that `sendFile` and `sendStatus` announce are the ones that the client counts.
pub check_length-file_headers :
    (ctype : Bytes) (n : ℕ) → n < 2 ^ 63 → check_length (file_headers ctype n) n ≡ success tt
unfolding check_length bytes_eq
check_length-file_headers ctype n range = rw (check_value-format_int n range) refl

pub check_length-status_headers : check_length status_headers 0 ≡ success tt
unfolding check_length check_value bytes_eq
check_length-status_headers = refl

-- One round of `handle`: the frame that was read is a request and is served.
unfoldable pub serve_next : FileSystem → FilePath → Exec Conn (Unit {0})
serve_next fs root = read_conn >>= λ f. serve_request fs root f

module _ (fs : FileSystem) (root : FilePath) (path : Bytes) (headers : List Header) (id : ℕ)
    {payload request : Bytes} (range : id < 2 ^ 32)
    (asked : encode_request (get_request path headers) ≡ success payload)
    (framed : encode (request_frame id payload) ≡ success request) where
  request_frame-IsFrame : IsFrame (request_frame id payload)
  request_frame-IsFrame = record {
    typ_byte = omega arith;
    flags_byte = omega arith;
    stream_range = range;
  }

  pub read_conn-request :
      (s : Conn) (rest : Bytes)
      → to_come s ≡ request ++ rest
      → (u : Source) × (join u.chunks ≡ rest)
        × (u.fault ≡ s.source.fault)
        × (read_conn s ≡ ok (request_frame id payload) (record s { source = u }))
  unfolding read_conn is_known
  read_conn-request s rest bytes =
      let (u, r, left, fault) =
        read-encode (request_frame id payload) s.source rest request_frame-IsFrame refl framed
          bytes in
      (u, left, fault, rw r refl)

  pub serve_request-request :
      (s : Conn)
      → serve_request fs root (request_frame id payload) s
        ≡ answer_request fs root id (get_request path headers) s
  unfolding serve_request wrong_flags has_flag
  serve_request-request s = rw (decode_request-encode_request (get_request path headers) asked) refl

  -- The server makes of the request's bytes what `answerRequest` makes of the path.
  serve_next-request :
      (s : Conn) (rest : Bytes)
      → to_come s ≡ request ++ rest
      → (u : Source) × (join u.chunks ≡ rest)
        × (serve_next fs root s
            ≡ answer_request fs root id (get_request path headers) (record s { source = u }))
  unfolding serve_next
  serve_next-request s rest bytes =
      let (u, left, fault, r) = read_conn-request s rest bytes in
      (u, left, rw r (serve_request-request (record s { source = u })))

-- The status of a path that cannot be opened.
abbrev pub miss_status : Error → ℕ
miss_status bad_path = 400
miss_status not_found = 404
miss_status _ = 500

pub answer_miss-miss_status :
    (id : ℕ) (e : Error) → answer_miss id e ≡ send_status id (miss_status e)
unfolding answer_miss
answer_miss-miss_status id bad_path = refl
answer_miss-miss_status id not_found = refl
answer_miss-miss_status id _ = refl

pub valid_status-miss_status : (e : Error) → valid_status (miss_status e) ≡ true
unfolding valid_status
valid_status-miss_status bad_path = refl
valid_status-miss_status not_found = refl
valid_status-miss_status _ = refl

-- What a connection has been sent since then.
abbrev pub sent_since : Conn → Outcome Conn (Unit {0}) → Bytes
sent_since s o = drop (length s.sink.written) (state_of o).sink.written

-- An answer is what was sent.
Answers-sent_since :
    (id status : ℕ) (hs : List Header) (content : Bytes) (s s' : Conn) (o : Outcome Conn (Unit {0}))
    → s'.sink ≡ s.sink
    → Answers id status hs content s' o
    → AnswerWire id status hs content (sent_since s o)
Answers-sent_since id status hs content s s' o same (wire, w, sends) =
    let all : sent_since s o ≡ wire =
      rw (sends.result, sends.written, same)
        (drop-append (length s.sink.written) s.sink.written wire refl) in
    rw all w

module _ (fs : FileSystem) (root : FilePath) (path : Bytes) (headers : List Header) (c : Client)
    (body : Sink) (s : Conn) {payload request : Bytes} (later more : Bytes) (ready : IsReady c)
    (is_open : IsOpen body) (healthy : IsHealthy s)
    (asked : encode_request (get_request path headers) ≡ success payload)
    (framed : encode (request_frame c.next payload) ≡ success request)
    (arrives : to_come s ≡ request ++ later)
    (returns : to_come c.conn ≡ sent_since s (serve_next fs root s) ++ more) where
  -- Over a healthy connection, in any pieces, a client that can send and asks for a path that the
  -- server opens as a file below 2^63 bytes, all of them there, gets the answer 200 with the
  -- file's type and size, and its body's writer gets exactly the file's bytes; the client has sent
  -- the request's frame and nothing else, and what follows the answer is left on the connection.
  pub get_file :
      (file : File) (info : FileInfo) (content extra : Bytes)
      → open_path fs root path ≡ success (file, info)
      → info.size < 2 ^ 63
      → length content ≡ info.size
      → join file.content.chunks ≡ content ++ extra
      → Gets c body request
          (answer_of 200 (file_headers (content_type info.name) info.size) content)
          content
          more
          (get path headers (c, body))
  unfolding answer_request
  get_file file info content extra found range size bytes =
      let hs = file_headers (content_type info.name) info.size in
      let (u, left, served) =
        serve_next-request fs root path headers c.next ready.in_range asked framed s later
          arrives in
      let answers =
        send_file-Answers c.next (content_type info.name) ready.positive
          (length-content_type info.name) info.size content extra file.content
          (record s { source = u }) range size bytes healthy in
      get-Answers path headers c body ready is_open asked framed 200 hs content _ more
        (Answers-sent_since c.next 200 hs content s (record s { source = u }) (serve_next fs root s)
          refl (rw served (rw found answers)))
        (rw size (check_length-file_headers (content_type info.name) info.size range)) returns

  -- Over a healthy connection, a client that can send and asks for a path that the server cannot
  -- open gets an answer with no body: 400 for a path that is not allowed, 404 for one that is not
  -- found, 500 otherwise.
  pub get_missing :
      (e : Error)
      → open_path fs root path ≡ failure e
      → Gets c body request
          (answer_of (miss_status e) status_headers [])
          []
          more
          (get path headers (c, body))
  unfolding answer_request
  get_missing e missing =
      let (u, left, served) =
        serve_next-request fs root path headers c.next ready.in_range asked framed s later
          arrives in
      let answers =
        send_status-Answers c.next (miss_status e) (record s { source = u }) ready.positive
          (valid_status-miss_status e) healthy in
      get-Answers path headers c body ready is_open asked framed (miss_status e) status_headers [] _
        more
        (Answers-sent_since c.next (miss_status e) status_headers [] s (record s { source = u })
          (serve_next fs root s) refl (rw served (rw missing (rw answer_miss-miss_status answers))))
        check_length-status_headers returns
