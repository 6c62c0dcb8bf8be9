-- ===== src/Tests/Tap.antt =====
-- The text of the tap, and a connection with a tap on it.
use bhttp_1_http_in_binary.Base.{
  ℕ, false, ◌≡◌, ◌≤◌, refl, arith, inl, Option, none, some, List, [], ◌∷◌, ◌++◌, Bytes, IsByte,
  codes, All, eof, drop, length, replicate, be_u32, short_write,
}
use bhttp_1_http_in_binary.Stream.{accept}
use bhttp_1_http_in_binary.Conn.{Conn}
use bhttp_1_http_in_binary.Wire.{unreadable}
use bhttp_1_http_in_binary.Wire.Text.{
  sent, received, frame_text, raw_text, write_rows, flag_names, type_name,
}
use bhttp_1_http_in_binary.Wire.Text.ReadBack.{read_frame_text, read_frame_text-frame_text}
use bhttp_1_http_in_binary.Wire.Text.Preview.{length-raw_text}
use bhttp_1_http_in_binary.Wire.Tap.{
  Tap, new_tap, wrap, Answer, read_bytes, wrote_count, closed_write, Call, reads, writes,
  closes_write, net_calls, tapped_calls,
}
use bhttp_1_http_in_binary.Wire.Tap.Ledger.{frames_shown, numbers_shown}
use bhttp_1_http_in_binary.Wire.Tap.Calls.{tapped_calls-Shows}
use bhttp_1_http_in_binary.Tests.Relay.{data_bytes, odd_bytes, sent_frames-IsWire}

one_row :
    write_rows (codes "ab\n")
    ≡ codes "      00000000  61 62 0A                                          |ab.|\n"
unfolding write_rows bhttp_1_http_in_binary.Wire.Text.row_text
    bhttp_1_http_in_binary.Wire.Text.hex_padded bhttp_1_http_in_binary.Wire.Text.hex_cells
    bhttp_1_http_in_binary.Wire.Text.gap bhttp_1_http_in_binary.Wire.Text.printed
one_row = refl

names :
    (flag_names 1 ≡ codes "END_STREAM")
    × (flag_names 7 ≡ codes "END_STREAM|0x06")
    × (type_name 9 ≡ codes "unknown(0x09)")
unfolding flag_names bhttp_1_http_in_binary.Wire.Text.hex_padded type_name
names = (refl, refl, refl)

some_text :
    frame_text received 2 odd_bytes
    ≡ codes
        "<-- frame 2  unknown(0x09)  stream=1  flags=END_STREAM  length=0\n    header   00 00 00 00 09 01 00 00 00 00 00 01\n"
unfolding frame_text bhttp_1_http_in_binary.Base.Decimal.format_int type_name
    bhttp_1_http_in_binary.Wire.Text.hex_padded be_u32 flag_names
    bhttp_1_http_in_binary.Wire.Text.spaced_hex
some_text = refl

read_frame_text-frame_text_example : read_frame_text (frame_text sent 1 data_bytes) ≡ data_bytes
read_frame_text-frame_text_example =
    read_frame_text-frame_text sent 1 data_bytes sent_frames-IsWire.0 (omega arith)

length-raw_text_example : length (raw_text received unreadable (codes "GET / HTTP/1.1")) ≤ 1507
length-raw_text_example =
    length-raw_text received unreadable (codes "GET / HTTP/1.1") (omega arith) (omega arith)

-- The peer sends a frame in two pieces, and takes five bytes of the first Write.
abbrev line : Conn
line = record {
  source = record { chunks = (0 ∷ 0 ∷ []) ∷ drop 2 data_bytes ∷ []; fault = eof };
  sink = record { written = []; grants = accept 5 ∷ [] };
  half_closed = false;
  closed = false;
}

abbrev calls : List Call
calls =
    writes odd_bytes ∷ reads 1 ∷ reads 8 ∷ writes (drop 5 odd_bytes) ∷ reads 64 ∷ closes_write ∷ []

answers :
    (net_calls calls line).0
    ≡ wrote_count 5 (some short_write)
      ∷ read_bytes (0 ∷ []) none
      ∷ read_bytes (0 ∷ []) none
      ∷ wrote_count 7 none
      ∷ read_bytes (drop 2 data_bytes) none
      ∷ closed_write
      ∷ []
unfolding net_calls bhttp_1_http_in_binary.Wire.Tap.net_call
    bhttp_1_http_in_binary.Stream.write_once
answers = refl

all_written : (net_calls calls line).1.sink.written ≡ odd_bytes
unfolding net_calls bhttp_1_http_in_binary.Wire.Tap.net_call
    bhttp_1_http_in_binary.Stream.write_once
all_written = refl

all_read : (net_calls calls line).1.source.chunks ≡ []
unfolding net_calls bhttp_1_http_in_binary.Wire.Tap.net_call
    bhttp_1_http_in_binary.Stream.write_once
all_read = refl

tapped_calls-Shows_example :
    let (answers, tapped) = tapped_calls calls (wrap new_tap line) in
    (answers ≡ (net_calls calls line).0)
    × (tapped.conn ≡ (net_calls calls line).1)
    × (frames_shown sent tapped.tap.shown ≡ odd_bytes ∷ [])
    × (frames_shown received tapped.tap.shown ≡ data_bytes ∷ [])
    × (numbers_shown tapped.tap.shown ≡ 1 ∷ 2 ∷ [])
tapped_calls-Shows_example =
    tapped_calls-Shows calls line (odd_bytes ∷ []) (data_bytes ∷ []) [] [] sent_frames-IsWire.1
      (sent_frames-IsWire.0, tt) (inl (omega arith)) (inl (omega arith)) all_written
      (rw all_read refl)
