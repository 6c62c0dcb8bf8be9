-- ===== src/Tests/Relay.antt =====
-- The tap's framer and the relay.
use bhttp_1_http_in_binary.Base.{
  ℕ, append-nil, ◌+◌, ◌-◌, ◌≡◌, refl, arith, true, false, inl, List, [], ◌∷◌, ◌++◌, Bytes, codes,
  some, success, timeout, eof, be_u32, All, replicate, length-replicate,
}
use bhttp_1_http_in_binary.Stream.{Source}
use bhttp_1_http_in_binary.Wire.{Framer, whole_frame}
use bhttp_1_http_in_binary.Wire.Pieces.{feed_all, feed_all-IsWire}
use bhttp_1_http_in_binary.Wire.Fronts.{IsWire}
use bhttp_1_http_in_binary.Chaos.{Random, Options, Pump, run}
use bhttp_1_http_in_binary.Conn.{Conn}
use bhttp_1_http_in_binary.Chaos.Relay.{
  copy_loop, relay, connection, accept_failed, returned, serve,
}
use bhttp_1_http_in_binary.Chaos.Relay.Through.{relay_through}
use bhttp_1_http_in_binary.Chaos.Heard.{read_all}
use bhttp_1_http_in_binary.Chaos.Written.{run_transparent, run-cut}
use bhttp_1_http_in_binary.Chaos.Sending.{IsRandom}

-- DATA on stream 1, and a frame of type 9 with nothing in it.
abbrev pub data_bytes : Bytes
data_bytes = 0 ∷ 0 ∷ 0 ∷ 2 ∷ 3 ∷ 1 ∷ 0 ∷ 0 ∷ 0 ∷ 0 ∷ 0 ∷ 1 ∷ b'h' ∷ b'i' ∷ []

abbrev pub odd_bytes : Bytes
odd_bytes = 0 ∷ 0 ∷ 0 ∷ 0 ∷ 9 ∷ 1 ∷ 0 ∷ 0 ∷ 0 ∷ 0 ∷ 0 ∷ 1 ∷ []

abbrev pub sent_frames : List Bytes
sent_frames = data_bytes ∷ odd_bytes ∷ []

pub sent_frames-IsWire : All IsWire sent_frames
unfolding be_u32
sent_frames-IsWire =
    (record { fits = omega arith; size = refl }, (record { fits = omega arith; size = refl }, tt))

abbrev fresh : Framer
fresh = record { buf = []; broken = false; seq = 0; shown = [] }

-- The two frames and three bytes more, in four pieces.
abbrev some_pieces : List Bytes
some_pieces =
    (0 ∷ 0 ∷ [])
    ∷ (0 ∷ 2 ∷ 3 ∷ 1 ∷ 0 ∷ 0 ∷ 0 ∷ 0 ∷ 0 ∷ 1 ∷ b'h' ∷ b'i' ∷ 0 ∷ 0 ∷ [])
    ∷ []
    ∷ (0 ∷ 0 ∷ 9 ∷ 1 ∷ 0 ∷ 0 ∷ 0 ∷ 0 ∷ 0 ∷ 1 ∷ 7 ∷ 7 ∷ 7 ∷ [])
    ∷ []

feed_all-IsWire_example : feed_all some_pieces fresh ≡ record {
  buf = 7 ∷ 7 ∷ 7 ∷ [];
  broken = false;
  seq = 2;
  shown = whole_frame 1 data_bytes ∷ whole_frame 2 odd_bytes ∷ [];
}
feed_all-IsWire_example =
    feed_all-IsWire some_pieces sent_frames (7 ∷ 7 ∷ 7 ∷ []) fresh refl (inl (omega arith))
      sent_frames-IsWire (inl (omega arith)) refl

-- Random numbers of a poor kind.
abbrev pub dice : Random ℕ
dice = record { intn = λ n r. (n - 1, r + 1); read = λ n r. (replicate n r, r + n) }

pub dice-IsRandom : IsRandom dice
dice-IsRandom = record { below = λ n r h. omega arith; fills = λ n r. length-replicate n r }

abbrev pub noisy : Options
noisy = record { chunk = 3; noise = true }

abbrev pub idle : Pump ℕ
idle = record {
  out = record { written = []; grants = [] };
  rng = 0;
  frames = 0;
  injected = 0;
  writes = 0;
}

abbrev sender : Source
sender = record { chunks = sent_frames; fault = eof }

abbrev hearer : Source
hearer = record { chunks = (run dice noisy sender idle).out.written ∷ []; fault = eof }

run_transparent_example : read_all 5 hearer ≡ read_all 5 sender
run_transparent_example =
    run_transparent dice noisy dice-IsRandom sent_frames sender idle 5 hearer sent_frames-IsWire
      refl refl refl (append-nil (run dice noisy sender idle).out.written) refl

abbrev cut_header : Bytes
cut_header = 0 ∷ 0 ∷ 0 ∷ 5 ∷ 3 ∷ 1 ∷ 0 ∷ 0 ∷ 0 ∷ 0 ∷ 0 ∷ 1 ∷ []

abbrev cut_sender : Source
cut_sender = record { chunks = cut_header ∷ codes "hi" ∷ []; fault = eof }

-- The client is told that the body is "hi" and three zero bytes.
run-cut_example :
    ((run dice noisy cut_sender idle).out.written ≡ cut_header ++ (b'h' ∷ b'i' ∷ 0 ∷ 0 ∷ 0 ∷ []))
    × IsWire (cut_header ++ (b'h' ∷ b'i' ∷ 0 ∷ 0 ∷ 0 ∷ []))
unfolding be_u32
run-cut_example =
    run-cut dice noisy cut_header (codes "hi") cut_sender idle refl (omega arith) (omega arith) refl
      refl

-- Two ends of a relay.
abbrev asker : Conn
asker = record {
  source = record { chunks = codes "as" ∷ codes "k" ∷ []; fault = eof };
  sink = record { written = []; grants = [] };
  half_closed = false;
  closed = false;
}

abbrev teller : Conn
teller = record asker { source = sender }

abbrev relay_hearer : Source
relay_hearer = record {
  chunks = (relay dice noisy (success teller) 0 asker).client.sink.written ∷ [];
  fault = eof;
}

relay_through_example :
    let r = relay dice noisy (success teller) 0 asker in
    (r.server
      ≡ some (record teller {
        sink = copy_loop asker.source.chunks teller.sink;
        half_closed = true;
        closed = true;
      }))
    × ((copy_loop asker.source.chunks teller.sink).written ≡ codes "ask")
    × (read_all 5 relay_hearer ≡ read_all 5 sender)
    × (r.client.half_closed ≡ true)
    × (r.client.closed ≡ true)
relay_through_example =
    relay_through dice noisy dice-IsRandom asker teller 0 sent_frames 5 relay_hearer
      sent_frames-IsWire refl refl refl refl
      (append-nil (relay dice noisy (success teller) 0 asker).client.sink.written) refl

-- The second Accept fails.
serve_stops :
    serve 0 (connection asker ∷ accept_failed timeout ∷ connection asker ∷ [])
    ≡ ((1, asker) ∷ [], returned (some timeout))
unfolding serve
serve_stops = refl
