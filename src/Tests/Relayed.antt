-- ===== src/Tests/Relayed.antt =====
-- A client behind the relay.
use bhttp_1_http_in_binary.Base.{
  refl, arith, append-nil, false, List, [], ◌∷◌, ◌++◌, Bytes, codes, eof, All, be_u32,
}
use bhttp_1_http_in_binary.Stream.{Source}
use bhttp_1_http_in_binary.Protocol.Headers.{Header}
use bhttp_1_http_in_binary.Wire.Fronts.{IsWire}
use bhttp_1_http_in_binary.Chaos.{run}
use bhttp_1_http_in_binary.Client.{Client, new_client}
use bhttp_1_http_in_binary.Exchange.Alike.Calls.{call_on, gets, SameGets}
use bhttp_1_http_in_binary.Exchange.Alike.Relayed.{relayed-SameGets}
use bhttp_1_http_in_binary.Tests.Relay.{
  data_bytes, sent_frames-IsWire, dice, dice-IsRandom, noisy, idle,
}
use bhttp_1_http_in_binary.Tests.Exchange.{out}

-- RESPONSE on stream 1, with the status 200 and three headers.
abbrev response_bytes : Bytes
response_bytes =
    0
    ∷ 0
    ∷ 0
    ∷ 31
    ∷ 2
    ∷ 0
    ∷ 0
    ∷ 0
    ∷ 0
    ∷ 0
    ∷ 0
    ∷ 1
    ∷ 0
    ∷ 200
    ∷ 3
    ∷ 1
    ∷ 0
    ∷ 10
    ∷ (codes "text/plain" ++ (2 ∷ 0 ∷ 1 ∷ b'2' ∷ 3 ∷ 0 ∷ 8 ∷ codes "bserve/1"))

abbrev answer_frames : List Bytes
answer_frames = response_bytes ∷ data_bytes ∷ []

answer_frames-IsWire : All IsWire answer_frames
unfolding be_u32
answer_frames-IsWire = (record { fits = omega arith; size = refl }, (sent_frames-IsWire.0, tt))

abbrev direct : Client
direct = new_client (record {
  source = record { chunks = answer_frames; fault = eof };
  sink = record { written = []; grants = [] };
  half_closed = false;
  closed = false;
})

abbrev from_relay : Source
from_relay = record {
  chunks = (run dice noisy direct.conn.source idle).out.written ∷ [];
  fault = eof;
}

-- The second call finds nothing to read, and the third one a broken client.
abbrev three_calls : List (Bytes × List Header)
three_calls = (codes "/a.txt", []) ∷ (codes "/b.txt", []) ∷ (codes "/c.txt", []) ∷ []

relayed-SameGets_example :
    SameGets (gets three_calls (direct, out)) (gets three_calls (call_on from_relay (direct, out)))
unfolding new_client
relayed-SameGets_example =
    relayed-SameGets dice noisy dice-IsRandom answer_frames idle three_calls direct out from_relay
      answer_frames-IsWire refl refl refl
      (append-nil (run dice noisy direct.conn.source idle).out.written) refl
