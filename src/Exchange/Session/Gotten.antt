-- ===== src/Exchange/Session/Gotten.antt =====
-- What the client makes of the replies, and the whole session.
use bhttp_1_http_in_binary.Base.{
  ℕ, suc, ◌+◌, ◌<◌, ◌^◌, ◌≡◌, refl, sym, ap, ◌∙◌, arith, false, List, [], ◌∷◌, ◌++◌, append_assoc,
  append-nil, Bytes, Error, wrapped, eof, Outcome, ok, success, failure, Result, length, join, ◌==◌,
  state_of,
}
use mathlib.Core.List.{map}
use bhttp_1_http_in_binary.Stream.{Sink}
use bhttp_1_http_in_binary.Protocol.Headers.{Header}
use bhttp_1_http_in_binary.Protocol.Messages.{encode_request}
use bhttp_1_http_in_binary.Conn.{Conn}
use bhttp_1_http_in_binary.Server.Paths.{FilePath}
use bhttp_1_http_in_binary.Server.Resolver.{FileSystem}
use bhttp_1_http_in_binary.Server.Loop.{handle}
use bhttp_1_http_in_binary.Client.{Client, Answer, Call, get, get_request, take_stream}
use bhttp_1_http_in_binary.Exchange.Sent.Body.{IsHealthy}
use bhttp_1_http_in_binary.Exchange.Bodies.{to_come, IsOpen}
use bhttp_1_http_in_binary.Exchange.Received.{answer_of}
use bhttp_1_http_in_binary.Exchange.Fetch.{IsReady, Gets, get-Answers}
use bhttp_1_http_in_binary.Exchange.Pipeline.Steady.{IsSteady}
use bhttp_1_http_in_binary.Exchange.Alike.Calls.{gets, get-unencodable}
use bhttp_1_http_in_binary.Exchange.Session.{
  Asking, request_bytes, requests_from, answer_to, result_of, body_of,
}
use bhttp_1_http_in_binary.Exchange.Session.Requests.{sent-request_bytes, unsent-request_bytes}
use bhttp_1_http_in_binary.Exchange.Session.Replies.{never_asked, replied, Replies, handle-Replies}

-- The next stream, while there is one.
take_stream-next :
    (c : Client) → suc c.next < 2 ^ 32 → take_stream c ≡ record c { next = suc c.next }
unfolding take_stream
take_stream-next c range =
    let some_left : (c.next == 0xffffffff) ≡ false = ground arith in
    let n : c.next + 1 ≡ suc c.next = omega arith in rw (some_left, n) refl

take_stream-IsReady : (c : Client) → IsReady c → suc c.next < 2 ^ 32 → IsReady (take_stream c)
take_stream-IsReady c ready range = rw (take_stream-next c range) (record {
  works = ready.works;
  has_streams = ready.has_streams;
  positive = omega arith;
  in_range = range;
  healthy = ready.healthy;
})

pub on_conn-IsReady :
    (c : Client) (conn : Conn) → IsReady c → IsHealthy conn → IsReady (record c { conn = conn })
on_conn-IsReady c conn ready h = record {
  works = ready.works;
  has_streams = ready.has_streams;
  positive = ready.positive;
  in_range = ready.in_range;
  healthy = h;
}

module _ (fs : FileSystem) (root : FilePath) where
  -- The calls returned what they should, wrote the bodies, and sent the requests.
  pub record GetsAll (calls : List Asking) (c : Client) (body : Sink)
      (o : List (Result Answer) × Call) : Type 0 where
    pub results : o.0 ≡ map (result_of fs root) calls
    pub written : o.1.1.written ≡ body.written ++ join (map (body_of fs root) calls)
    pub sent : o.1.0.conn.sink.written ≡ c.conn.sink.written ++ requests_from c.next calls

  module _ (path : Bytes) (headers : List Header) (calls : List Asking) (c : Client)
      (body : Sink) where
    -- A call that is answered, and the ones behind it.
    answered_call :
        {request content rest : Bytes} {a : Answer}
        → suc c.next < 2 ^ 32
        → result_of fs root (path, headers) ≡ success a
        → body_of fs root (path, headers) ≡ content
        → request_bytes c.next (path, headers) ≡ request
        → (g : Gets c body request a content rest (get path headers (c, body)))
        → (let s : Call = (record (take_stream c) { conn = g.conn }, g.out) in
            GetsAll calls s.0 s.1 (gets calls s))
        → GetsAll ((path, headers) ∷ calls) c body (gets ((path, headers) ∷ calls) (c, body))
    unfolding gets requests_from
    answered_call {request} {content} {rest} {a} range result out asked g later =
        let c' : Client = record (take_stream c) { conn = g.conn } in
        let next : c'.next ≡ suc c.next = ap (λ (x : Client). x.next) (take_stream-next c range) in
        let all = join (map (body_of fs root) calls) in
        let more = requests_from (suc c.next) calls in
        let rest_sent : (gets calls (c', g.out)).1.0.conn.sink.written
            ≡ g.conn.sink.written ++ more =
          later.sent ∙ ap (λ n. g.conn.sink.written ++ requests_from n calls) next in
        rw g.result (record {
          results =
              ap (◌∷◌ (success a)) later.results
              ∙ ap (λ r. r ∷ map (result_of fs root) calls) (sym result);
          written =
              later.written
              ∙ ap (λ (x : Bytes). x ++ all) g.written
              ∙ append_assoc body.written content all
              ∙ ap (λ (x : Bytes). body.written ++ (x ++ all)) (sym out);
          sent =
              rest_sent
              ∙ ap (λ (x : Bytes). x ++ more) g.sent
              ∙ append_assoc c.conn.sink.written request more
              ∙ ap (λ (x : Bytes). c.conn.sink.written ++ (x ++ more)) (sym asked);
        })

    -- A call whose request cannot be encoded takes a stream all the same.
    refused_call :
        (e : Error)
        → suc c.next < 2 ^ 32
        → IsReady c
        → encode_request (get_request path headers) ≡ failure e
        → GetsAll calls (take_stream c) body (gets calls (take_stream c, body))
        → GetsAll ((path, headers) ∷ calls) c body (gets ((path, headers) ∷ calls) (c, body))
    unfolding gets requests_from result_of body_of
    refused_call e range ready bad later =
        let all_sent =
          ap (λ (x : Client). x.conn.sink.written ++ requests_from x.next calls)
            (take_stream-next c range) in
        rw (get-unencodable path headers c body e ready.works ready.has_streams bad) (record {
          results = rw bad (ap (◌∷◌ (failure (wrapped e))) later.results);
          written = rw bad later.written;
          sent = rw (unsent-request_bytes c.next path headers bad) (later.sent ∙ all_sent);
        })

    -- What an answer should be, in terms of a call.
    result_of-asked :
        {payload : Bytes} {a : Answer} {content : Bytes}
        → encode_request (get_request path headers) ≡ success payload
        → answer_to fs root path ≡ (a, content)
        → (result_of fs root (path, headers) ≡ success a)
          × (body_of fs root (path, headers) ≡ content)
    unfolding result_of body_of
    result_of-asked asked is = rw (asked, is) (refl, refl)

  gets-Replies :
      (calls : List Asking) (id : ℕ) (wire : Bytes) (c : Client) (body : Sink)
      → IsReady c
      → c.next ≡ id
      → IsOpen body
      → id + length calls < 2 ^ 32
      → Replies fs root id calls wire
      → to_come c.conn ≡ wire
      → GetsAll calls c body (gets calls (c, body))
  unfolding gets requests_from
  gets-Replies [] id wire c body ready at is_open range replies bytes = record {
    results = refl;
    written = sym (append-nil body.written);
    sent = sym (append-nil c.conn.sink.written);
  }
  gets-Replies ((path, headers) ∷ calls) id wire c body ready at is_open range
        (one, rest, is, never_asked e bad nothing, replies) bytes =
      let ahead : suc c.next < 2 ^ 32 = omega (arith, range, at) in
      let next = ap (λ (x : Client). x.next) (take_stream-next c ahead) in
      refused_call path headers calls c body e ahead ready bad (
        gets-Replies calls (suc id) rest (take_stream c) body (take_stream-IsReady c ready ahead)
          (next ∙ ap suc at) is_open (omega (arith, range)) replies
          (ap (λ (x : Client). to_come x.conn) (take_stream-next c ahead)
            ∙ bytes
            ∙ is
            ∙ ap (λ (x : Bytes). x ++ rest) nothing))
  gets-Replies ((path, headers) ∷ calls) id wire c body ready at is_open range
        (one, rest, is, replied payload request asked framed answer, replies) bytes =
      let ahead : suc c.next < 2 ^ 32 = omega (arith, range, at) in
      let next = ap (λ (x : Client). x.next) (take_stream-next c ahead) in
      let got : Gets c body request (answer_of answer.status answer.headers answer.content)
          answer.content rest (get path headers (c, body)) =
        get-Answers path headers c body ready is_open asked (rw at framed) answer.status
          answer.headers answer.content one rest (rw at answer.carries) answer.agrees
          (bytes ∙ is) in
      let (result, out) = result_of-asked path headers calls c body asked answer.is in
      answered_call path headers calls c body ahead result out
        (sent-request_bytes c.next path headers asked (rw at framed)) got
        (gets-Replies calls (suc id) rest (record (take_stream c) { conn = got.conn }) got.out
          (on_conn-IsReady (take_stream c) got.conn (take_stream-IsReady c ready ahead) got.healthy)
          (next ∙ ap suc at) got.is_open (omega (arith, range)) replies got.left)

  -- A client that can send makes any list of calls, one after the other, and does not come to the
  -- last stream. If the server, on a new and healthy connection, reads the requests of those calls
  -- that can be encoded and then the end, and the client hears what handle writes, and each file
  -- that is opened has the bytes that its size promises, then handle returns, and each call
  -- returns what it should: an error if its request cannot be encoded, and otherwise the answer
  -- 200 with the file's type and size, or 400, 404 or 500 as the failure to open the path asks
  -- for. The writer of bodies gets the files one behind the other and nothing else, and the client
  -- has sent those requests and nothing else.
  pub handle-GetsAll :
      (calls : List Asking) (c : Client) (body : Sink) (s : Conn)
      → IsSteady fs root
      → IsReady c
      → IsOpen body
      → c.next + length calls < 2 ^ 32
      → IsHealthy s
      → s.sink.written ≡ []
      → to_come s ≡ requests_from c.next calls
      → s.source.fault ≡ eof
      → to_come c.conn ≡ (state_of (handle fs root s)).sink.written
      → (s' : Conn) × (handle fs root s ≡ ok tt s') × GetsAll calls c body (gets calls (c, body))
  handle-GetsAll calls c body s steady ready is_open range healthy fresh arrives ends returns =
      let (wire, s', done, out, replies) =
        handle-Replies fs root steady calls c.next s ready.positive (omega (arith, range)) arrives
          ends healthy in
      let comes : to_come c.conn ≡ wire =
        returns
        ∙ ap (λ (o : Outcome Conn (Unit {0})). (state_of o).sink.written) done
        ∙ out
        ∙ ap (λ (x : Bytes). x ++ wire) fresh in
      (s', done, gets-Replies calls c.next wire c body ready refl is_open range replies comes)
