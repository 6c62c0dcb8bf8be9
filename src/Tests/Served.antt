-- ===== src/Tests/Served.antt =====
-- What a server writes on a connection with garbage on it, and a client that reads it from the relay.
use bhttp_1_http_in_binary.Base.{
  ◌≡◌, refl, arith, append-nil, true, false, ok, timeout, List, [], ◌∷◌, Bytes, codes, eof,
  state_of,
}
use bhttp_1_http_in_binary.Stream.{Source, accept, refuse}
use bhttp_1_http_in_binary.Protocol.Headers.{Header}
use bhttp_1_http_in_binary.Conn.{Conn}
use bhttp_1_http_in_binary.Server.Loop.{handle}
use bhttp_1_http_in_binary.Chaos.{run}
use bhttp_1_http_in_binary.Client.{Client, new_client}
use bhttp_1_http_in_binary.Exchange.Output.{Replied, CutShort}
use bhttp_1_http_in_binary.Exchange.Output.Handled.{handle-Replied, handle-CutShort}
use bhttp_1_http_in_binary.Exchange.Alike.Calls.{call_on, gets, SameGets}
use bhttp_1_http_in_binary.Exchange.Alike.Served.{handle-SameGets}
use bhttp_1_http_in_binary.Tests.Server.{root, tree}
use bhttp_1_http_in_binary.Tests.Exchange.{out, request, at_server}
use bhttp_1_http_in_binary.Tests.Relay.{dice, dice-IsRandom, noisy, idle}

-- A request, and a frame that is too large and never comes.
abbrev served : Conn
served =
    at_server (request ∷ (255 ∷ 0 ∷ 0 ∷ 0 ∷ 3 ∷ 0 ∷ 0 ∷ 0 ∷ []) ∷ (0 ∷ 0 ∷ 0 ∷ 1 ∷ 9 ∷ []) ∷ [])

handle-Replied_example :
    (c : Conn) × (handle tree root served ≡ ok tt c) × (c.closed ≡ true) × Replied served c
handle-Replied_example = handle-Replied tree root served (omega arith, (omega arith, tt))

-- The same, and the second Write takes seven bytes and fails.
abbrev served_badly : Conn
served_badly = record served {
  sink = record { written = 9 ∷ []; grants = accept 5 ∷ refuse 7 timeout ∷ accept 0 ∷ [] };
}

handle-CutShort_example :
    (c : Conn) × (handle tree root served_badly ≡ ok tt c)
    × (c.closed ≡ true)
    × CutShort served_badly c
handle-CutShort_example = handle-CutShort tree root served_badly (tt, (refl, (tt, tt)))

abbrev written_bytes : Bytes
written_bytes = (state_of (handle tree root served)).sink.written

abbrev direct : Client
direct = new_client (record {
  source = record { chunks = written_bytes ∷ []; fault = eof };
  sink = record { written = []; grants = [] };
  half_closed = false;
  closed = false;
})

abbrev from_relay : Source
from_relay = record {
  chunks = (run dice noisy direct.conn.source idle).out.written ∷ [];
  fault = eof;
}

abbrev two_calls : List (Bytes × List Header)
two_calls = (codes "/a.txt", []) ∷ (codes "/b.txt", []) ∷ []

handle-SameGets_example :
    SameGets (gets two_calls (direct, out)) (gets two_calls (call_on from_relay (direct, out)))
unfolding new_client
handle-SameGets_example =
    handle-SameGets dice noisy dice-IsRandom tree root served idle two_calls direct out from_relay
      (omega arith, (omega arith, tt)) refl (append-nil written_bytes) refl refl
      (append-nil (run dice noisy direct.conn.source idle).out.written) refl
