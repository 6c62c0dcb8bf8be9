-- ===== src/Exchange/Session/Relayed.antt =====
-- The whole session with the relay of internal/chaos on the way from the server to the client.
use bhttp_1_http_in_binary.Base.{
  ◌+◌, ◌<◌, ◌^◌, ◌≡◌, sym, ap, ◌∙◌, List, [], eof, state_of, length, join,
}
use bhttp_1_http_in_binary.Stream.{Source, Sink}
use bhttp_1_http_in_binary.Conn.{Conn}
use bhttp_1_http_in_binary.Server.Paths.{FilePath}
use bhttp_1_http_in_binary.Server.Resolver.{FileSystem}
use bhttp_1_http_in_binary.Server.Loop.{handle}
use bhttp_1_http_in_binary.Chaos.{Random, Options, Pump, run}
use bhttp_1_http_in_binary.Chaos.Sending.{IsRandom, TakesAll}
use bhttp_1_http_in_binary.Client.{Client}
use bhttp_1_http_in_binary.Exchange.Sent.Body.{IsHealthy}
use bhttp_1_http_in_binary.Exchange.Bodies.{to_come, IsOpen}
use bhttp_1_http_in_binary.Exchange.Fetch.{IsReady}
use bhttp_1_http_in_binary.Exchange.Pipeline.Steady.{IsSteady}
use bhttp_1_http_in_binary.Exchange.Alike.Calls.{gets}
use bhttp_1_http_in_binary.Exchange.Alike.Frames.{on_stream}
use bhttp_1_http_in_binary.Exchange.Alike.Served.{handle-SameGets}
use bhttp_1_http_in_binary.Exchange.Session.{Asking, requests_from}
use bhttp_1_http_in_binary.Exchange.Session.Gotten.{on_conn-IsReady, GetsAll, handle-GetsAll}

module _ {R : Type 0} (rand : Random R) (o : Options) (is_random : IsRandom rand) (fs : FileSystem)
    (root : FilePath) where
  -- A client that can send makes any list of calls, one after the other, and does not come to the
  -- last stream; the server, on a new and healthy connection, reads the requests of those calls
  -- that can be encoded and then the end, and each file that is opened has the bytes that its size
  -- promises. If the relay passes on what handle writes, with any pieces and any noise, and gets
  -- rid of all it writes, then each call of the client behind it returns what it should: an error
  -- if its request cannot be encoded, and otherwise the answer 200 with the file's type and size,
  -- or 400, 404 or 500 as the failure to open the path asks for. The writer of bodies gets the
  -- files one behind the other and nothing else, and the client has sent those requests and
  -- nothing else. What math/rand promises is a hypothesis.
  pub relayed-GetsAll :
      (calls : List Asking) (c : Client) (body : Sink) (s : Conn) (from_server : Source)
      (p : Pump R)
      → IsSteady fs root
      → IsReady c
      → IsOpen body
      → c.next + length calls < 2 ^ 32
      → IsHealthy s
      → s.sink.written ≡ []
      → to_come s ≡ requests_from c.next calls
      → s.source.fault ≡ eof
      → join from_server.chunks ≡ (state_of (handle fs root s)).sink.written
      → from_server.fault ≡ eof
      → TakesAll p
      → p.out.written ≡ []
      → to_come c.conn ≡ (run rand o from_server p).out.written
      → c.conn.source.fault ≡ eof
      → GetsAll fs root calls c body (gets calls (c, body))
  relayed-GetsAll calls c body s from_server p steady ready is_open range healthy fresh arrives ends
        comes whole takes new passes closes =
      let direct : Client = record c { conn = on_stream from_server c.conn } in
      let (s', done, all) =
        handle-GetsAll fs root calls direct body s steady
          (on_conn-IsReady c (on_stream from_server c.conn) ready ready.healthy) is_open range
          healthy fresh arrives ends comes in
      let (results, bodies, sinks) =
        handle-SameGets rand o is_random fs root s p calls direct body c.conn.source healthy fresh
          comes takes new passes (closes ∙ sym whole) in
      record {
        results = sym results ∙ all.results;
        written = ap (λ (w : Sink). w.written) (sym bodies) ∙ all.written;
        sent = ap (λ (w : Sink). w.written) (sym sinks) ∙ all.sent;
      }
