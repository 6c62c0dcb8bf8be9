-- ===== src/Wire.antt =====
-- internal/wire/tap.go: the framer that cuts one direction of a connection into frames for printing.
-- What is printed is kept as data; its text is left out.
pub mod Fronts
pub mod Pieces
pub mod Text
pub mod Tap
use bhttp_1_http_in_binary.Base.{
  ℕ, zero, suc, ◌+◌, Bool, true, false, List, [], ◌∷◌, ◌++◌, Bytes, be_u32, ltb, if◌then◌else◌,
  length, take, drop,
}
use bhttp_1_http_in_binary.Frame.{header_size, max_payload}

-- The reasons for printing bytes that are no frame.
pub data Why : Type 0 where
  behind_unreadable unreadable incomplete_at_end : Why

pub data Shown : Type 0 where
  whole_frame : ℕ → Bytes → Shown
  raw_bytes : Why → Bytes → Shown

-- One direction, with the number of frames that the tap has shown.
pub record Framer : Type 0 where
  pub buf : Bytes
  pub broken : Bool
  pub seq : ℕ
  pub shown : List Shown

unfoldable pub print_frame : Bytes → Framer → Framer
print_frame b f = record f { seq = f.seq + 1; shown = f.shown ++ (whole_frame (f.seq + 1) b ∷ []) }

unfoldable pub print_raw : Why → Bytes → Framer → Framer
print_raw why b f = record f { shown = f.shown ++ (raw_bytes why b ∷ []) }

-- The loop of `feed`. A round takes twelve bytes at least.
unfoldable pub feed_loop : ℕ → Framer → Framer
unfolding print_frame print_raw
feed_loop zero f = f
feed_loop (suc fuel) f =
    let total = header_size + be_u32 f.buf in
    let printed = print_frame (take total f.buf) f in
    let rest = feed_loop fuel (record printed { buf = drop total f.buf }) in
    if ltb (length f.buf) header_size
    then f
    else if ltb max_payload (be_u32 f.buf)
    then record (print_raw unreadable f.buf f) { broken = true; buf = [] }
    else if ltb (length f.buf) total
    then f
    else rest

unfoldable pub feed : Bytes → Framer → Framer
unfolding feed_loop
feed b f =
    if f.broken
    then print_raw behind_unreadable b f
    else feed_loop (suc (length (f.buf ++ b))) (record f { buf = f.buf ++ b })

unfoldable pub flush : Framer → Framer
flush f =
    if ltb 0 (length f.buf) then record (print_raw incomplete_at_end f.buf f) { buf = [] } else f
