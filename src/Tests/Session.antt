-- ===== src/Tests/Session.antt =====
-- Calls one after the other against the server, and with the relay on the way.
use bhttp_1_http_in_binary.Base.{
  ◌≡◌, refl, arith, append-nil, List, [], ◌∷◌, Bytes, codes, eof, ok, state_of,
}
use bhttp_1_http_in_binary.Stream.{Source}
use bhttp_1_http_in_binary.Conn.{Conn}
use bhttp_1_http_in_binary.Server.Loop.{handle}
use bhttp_1_http_in_binary.Chaos.{run}
use bhttp_1_http_in_binary.Client.{new_client}
use bhttp_1_http_in_binary.Exchange.Alike.Calls.{gets}
use bhttp_1_http_in_binary.Exchange.Session.{Asking, requests_from}
use bhttp_1_http_in_binary.Exchange.Session.Gotten.{GetsAll, handle-GetsAll}
use bhttp_1_http_in_binary.Exchange.Session.Relayed.{relayed-GetsAll}
use bhttp_1_http_in_binary.Tests.Server.{root, tree}
use bhttp_1_http_in_binary.Tests.Exchange.{
  out, at_server, client_of, client_of-IsReady, tree-IsSteady,
}
use bhttp_1_http_in_binary.Tests.Relay.{dice, dice-IsRandom, noisy, idle}

-- A file, a path that is too short to be asked for, and one that leads up.
abbrev three_calls : List Asking
three_calls = (codes "/a.txt", []) ∷ ([], []) ∷ (codes "/../b", []) ∷ []

abbrev asked_bytes : Bytes
asked_bytes = requests_from 1 three_calls

abbrev asked : Conn
asked = at_server (asked_bytes ∷ [])

abbrev replied_bytes : Bytes
replied_bytes = (state_of (handle tree root asked)).sink.written

handle-GetsAll_example :
    (c : Conn) × (handle tree root asked ≡ ok tt c)
    × GetsAll tree root three_calls
        (client_of replied_bytes)
        out
        (gets three_calls (client_of replied_bytes, out))
unfolding new_client
handle-GetsAll_example =
    handle-GetsAll tree root three_calls (client_of replied_bytes) out asked tree-IsSteady
      (client_of-IsReady replied_bytes) refl (omega arith) (omega arith, (omega arith, tt)) refl
      (append-nil asked_bytes) refl (append-nil replied_bytes)

abbrev from_server : Source
from_server = record { chunks = replied_bytes ∷ []; fault = eof }

abbrev relayed_bytes : Bytes
relayed_bytes = (run dice noisy from_server idle).out.written

relayed-GetsAll_example :
    GetsAll tree root three_calls
      (client_of relayed_bytes)
      out
      (gets three_calls (client_of relayed_bytes, out))
unfolding new_client
relayed-GetsAll_example =
    relayed-GetsAll dice noisy dice-IsRandom tree root three_calls (client_of relayed_bytes) out
      asked from_server idle tree-IsSteady (client_of-IsReady relayed_bytes) refl (omega arith)
      (omega arith, (omega arith, tt)) refl (append-nil asked_bytes) refl (append-nil replied_bytes)
      refl refl refl (append-nil relayed_bytes) refl
