-- ===== src/Exchange/Alike/Relayed.antt =====
-- A client behind the relay of internal/chaos.
use bhttp_1_http_in_binary.Base.{◌≡◌, sym, inl, List, [], Bytes, join, All}
use bhttp_1_http_in_binary.Stream.{Source, Sink}
use bhttp_1_http_in_binary.Protocol.Headers.{Header}
use bhttp_1_http_in_binary.Wire.Fronts.{IsWire}
use bhttp_1_http_in_binary.Chaos.{Random, Options, Pump, run}
use bhttp_1_http_in_binary.Chaos.Sending.{IsRandom, TakesAll}
use bhttp_1_http_in_binary.Chaos.Written.{run_transparent}
use bhttp_1_http_in_binary.Client.{Client}
use bhttp_1_http_in_binary.Exchange.Alike.Calls.{call_on, gets, SameGets, gets-SameGets}

module _ {R : Type 0} (rand : Random R) (o : Options) (is_random : IsRandom rand) where
  -- A server's stream that holds whole frames goes through the relay, with any pieces and any
  -- noise, and the relay gets rid of all it writes: whatever calls a client makes one after the
  -- other, behind the relay it returns the same answers and errors, writes the same bodies, and
  -- sends the same bytes as on the server's own stream. What math/rand promises is a hypothesis.
  pub relayed-SameGets :
      (bs : List Bytes) (p : Pump R) (calls : List (Bytes × List Header)) (c : Client) (body : Sink)
      (t : Source)
      → All IsWire bs
      → join c.conn.source.chunks ≡ join bs
      → TakesAll p
      → p.out.written ≡ []
      → join t.chunks ≡ (run rand o c.conn.source p).out.written
      → t.fault ≡ c.conn.source.fault
      → SameGets (gets calls (c, body)) (gets calls (call_on t (c, body)))
  relayed-SameGets bs p calls c body t all is takes fresh comes same =
      gets-SameGets calls (c, body) t
        (inl (λ m.
          sym (
            run_transparent rand o is_random bs c.conn.source p m t all is takes fresh comes same)))
