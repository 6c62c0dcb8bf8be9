-- ===== src/Wire/Tap.antt =====
-- internal/wire/tap.go: Tap and the connection that it wraps. Each of the two framers is the framer
-- of Wire with the counter of the tap, and the lock of the tap makes a call of `feed` one step.
pub mod Ledger
pub mod Interleaved
pub mod Moves
pub mod Calls
use bhttp_1_http_in_binary.Base.{
  ℕ, ◌-◌, Bool, true, false, List, [], ◌∷◌, ◌++◌, Bytes, Error, Option, none, some, Outcome, ok,
  err, fold_outcome, leb, ltb, if◌then◌else◌, length, take, drop,
}
use bhttp_1_http_in_binary.Stream.{Source, Sink, write_once}
use bhttp_1_http_in_binary.Conn.{Conn}
use bhttp_1_http_in_binary.Wire.{Shown, Framer, feed, flush}
use bhttp_1_http_in_binary.Wire.Text.{Arrow, sent, received, text_of}

-- What a framer keeps for itself.
pub record Direction : Type 0 where
  pub buf : Bytes
  pub broken : Bool

-- What has been printed, with the direction of each.
pub record Tap : Type 0 where
  pub sends : Direction
  pub receives : Direction
  pub seq : ℕ
  pub shown : List (Arrow × Shown)

abbrev new_direction : Direction
new_direction = record { buf = []; broken = false }

abbrev pub new_tap : Tap
new_tap = record { sends = new_direction; receives = new_direction; seq = 0; shown = [] }

abbrev pub direction : Arrow → Tap → Direction
direction sent t = t.sends
direction received t = t.receives

abbrev pub put_direction : Arrow → Direction → Tap → Tap
put_direction sent d t = record t { sends = d }
put_direction received d t = record t { receives = d }

-- A framer with the counter of its tap, and the tap after the framer has done something.
abbrev pub framer : Arrow → Tap → Framer
framer a t = record {
  buf = (direction a t).buf;
  broken = (direction a t).broken;
  seq = t.seq;
  shown = [];
}

abbrev pub marked : Arrow → List Shown → List (Arrow × Shown)
marked a [] = []
marked a (s ∷ ss) = (a, s) ∷ marked a ss

unfoldable pub put_framer : Arrow → Framer → Tap → Tap
put_framer a f t =
    let d : Direction = record { buf = f.buf; broken = f.broken } in
    record (put_direction a d t) { seq = f.seq; shown = t.shown ++ marked a f.shown }

-- Tap.feed
unfoldable pub feed_tap : Arrow → Bytes → Tap → Tap
unfolding put_framer
feed_tap a b t = put_framer a (feed b (framer a t)) t

-- Tap.Flush
unfoldable pub flush_tap : Tap → Tap
unfolding put_framer
flush_tap t =
    let t' = put_framer sent (flush (framer sent t)) t in
    put_framer received (flush (framer received t')) t'

-- All that the tap has printed.
unfoldable pub printed_text : List (Arrow × Shown) → Bytes
printed_text [] = []
printed_text ((a, s) ∷ rest) = text_of a s ++ printed_text rest

-- A Read of a connection: it returns a piece, or as much of it as there is room for.
unfoldable pub read_piece : ℕ → List Bytes → Error → Outcome Source Bytes
read_piece n [] fault = err fault (record { chunks = []; fault = fault })
read_piece n (c ∷ cs) fault =
    if leb (length c) n
    then ok c (record { chunks = cs; fault = fault })
    else ok (take n c) (record { chunks = drop n c ∷ cs; fault = fault })

-- What a call on a connection returns: the bytes that a Read has put into the caller's buffer, the
-- number of bytes that a Write has taken, and the error.
pub data Answer : Type 0 where
  read_bytes : Bytes → Option Error → Answer
  wrote_count : ℕ → Option Error → Answer
  closed_write : Answer

pub data Call : Type 0 where
  reads : ℕ → Call
  writes : Bytes → Call
  closes_write : Call

unfoldable pub net_read : ℕ → Conn → Answer × Conn
unfolding read_piece
net_read n c =
    fold_outcome (read_piece n c.source.chunks c.source.fault)
      (λ b s. (read_bytes b none, record c { source = s }))
      (λ e s. (read_bytes [] (some e), record c { source = s }))

unfoldable pub net_write : Bytes → Conn → Answer × Conn
net_write b c =
    let count = λ (w : Sink). length w.written - length c.sink.written in
    fold_outcome (write_once b c.sink) (λ _ w. (wrote_count (count w) none, record c { sink = w }))
      (λ e w. (wrote_count (count w) (some e), record c { sink = w }))

unfoldable pub net_call : Call → Conn → Answer × Conn
unfolding net_read net_write
net_call (reads n) c = net_read n c
net_call (writes b) c = net_write b c
net_call closes_write c = (closed_write, record c { half_closed = true })

-- The connection that Wrap returns.
pub record TappedConn : Type 0 where
  pub conn : Conn
  pub tap : Tap

-- NewTap and Wrap
abbrev pub wrap : Tap → Conn → TappedConn
wrap t c = record { conn = c; tap = t }

-- What a call of the connection gives the tap to feed on: `p[:n]` if `n` is not 0.
unfoldable pub watch : Call → Answer → Tap → Tap
watch (reads n) (read_bytes b e) t = if ltb 0 (length b) then feed_tap received b t else t
watch (writes b) (wrote_count n e) t = if ltb 0 n then feed_tap sent (take n b) t else t
watch _ _ t = t

-- Read, Write and CloseWrite of tappedConn
unfoldable pub tapped_call : Call → TappedConn → Answer × TappedConn
unfolding net_call watch
tapped_call call c =
    let (answer, conn) = net_call call c.conn in
    (answer, record { conn = conn; tap = watch call answer c.tap })

-- Calls one after the other.
unfoldable pub net_calls : List Call → Conn → List Answer × Conn
net_calls [] c = ([], c)
net_calls (call ∷ calls) c =
    let (answer, c') = net_call call c in
    let (answers, last) = net_calls calls c' in (answer ∷ answers, last)

unfoldable pub tapped_calls : List Call → TappedConn → List Answer × TappedConn
tapped_calls [] c = ([], c)
tapped_calls (call ∷ calls) c =
    let (answer, c') = tapped_call call c in
    let (answers, last) = tapped_calls calls c' in (answer ∷ answers, last)
