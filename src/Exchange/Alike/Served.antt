-- ===== src/Exchange/Alike/Served.antt =====
-- The server, the relay of internal/chaos, and a client behind the two.
use bhttp_1_http_in_binary.Base.{◌≡◌, ◌∙◌, ap, List, [], ◌++◌, Bytes, join, state_of}
use bhttp_1_http_in_binary.Stream.{Source, Sink}
use bhttp_1_http_in_binary.Protocol.Headers.{Header}
use bhttp_1_http_in_binary.Conn.{Conn}
use bhttp_1_http_in_binary.Server.Paths.{FilePath}
use bhttp_1_http_in_binary.Server.Resolver.{FileSystem}
use bhttp_1_http_in_binary.Server.Loop.{handle}
use bhttp_1_http_in_binary.Chaos.{Random, Options, Pump, run}
use bhttp_1_http_in_binary.Chaos.Sending.{IsRandom, TakesAll}
use bhttp_1_http_in_binary.Client.{Client}
use bhttp_1_http_in_binary.Exchange.Sent.Body.{IsHealthy}
use bhttp_1_http_in_binary.Exchange.Output.{Replied-IsWire}
use bhttp_1_http_in_binary.Exchange.Output.Handled.{handle-Replied}
use bhttp_1_http_in_binary.Exchange.Alike.Calls.{call_on, gets, SameGets}
use bhttp_1_http_in_binary.Exchange.Alike.Relayed.{relayed-SameGets}

module _ {R : Type 0} (rand : Random R) (o : Options) (is_random : IsRandom rand) (fs : FileSystem)
    (root : FilePath) where
  -- Whatever arrives on a healthy connection of the server: if what the server writes comes to a
  -- client through the relay, with any pieces and any noise, and the relay gets rid of all it
  -- writes, then whatever calls the client makes one after the other, it returns the same answers
  -- and errors, writes the same bodies, and sends the same bytes as without the relay. What
  -- math/rand promises is a hypothesis.
  pub handle-SameGets :
      (served : Conn) (p : Pump R) (calls : List (Bytes × List Header)) (c : Client) (body : Sink)
      (t : Source)
      → IsHealthy served
      → served.sink.written ≡ []
      → join c.conn.source.chunks ≡ (state_of (handle fs root served)).sink.written
      → TakesAll p
      → p.out.written ≡ []
      → join t.chunks ≡ (run rand o c.conn.source p).out.written
      → t.fault ≡ c.conn.source.fault
      → SameGets (gets calls (c, body)) (gets calls (call_on t (c, body)))
  handle-SameGets served p calls c body t h fresh comes takes new passes same =
      let (c', returns, shut, out) = handle-Replied fs root served h in
      let bs = out.answers ++ out.errors in
      let written : (state_of (handle fs root served)).sink.written ≡ join bs =
        rw returns (out.written ∙ ap (λ (z : Bytes). z ++ join bs) fresh) in
      relayed-SameGets rand o is_random bs p calls c body t (Replied-IsWire served c' out)
        (comes ∙ written) takes new passes same
