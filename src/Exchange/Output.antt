-- ===== src/Exchange/Output.antt =====
-- What the server writes on a connection: answers, an error at the end, and the front of a frame where
-- a Write fails.
pub mod Terms
pub mod Connection
pub mod Handled
use bhttp_1_http_in_binary.Base.{
  ℕ, ◌≤◌, ◌≡◌, refl, sym, ap, ◌∙◌, arith, ◌⊎◌, List, [], ◌∷◌, ◌++◌, append_assoc, Bytes, All,
  All-append, join, success, length, be_u32,
}
use bhttp_1_http_in_binary.Frame.{Frame, encode, wire_header, type_error}
use bhttp_1_http_in_binary.Frame.RoundTrip.{
  encode-success, length-encode, length-wire_header, declared-wire_header,
}
use bhttp_1_http_in_binary.Wire.Fronts.{IsWire, be_u32-append}
use bhttp_1_http_in_binary.Conn.{Conn}
use bhttp_1_http_in_binary.Server.Requests.Writing.{IsAnswerFrame}

-- The only frame of a server that is no answer.
abbrev pub IsLastFrame : Frame → Type 0
IsLastFrame f = (f.typ ≡ type_error) × (f.stream_id ≡ 0)

abbrev pub IsServerFrame : Frame → Type 0
IsServerFrame f = IsAnswerFrame f ⊎ IsLastFrame f

-- The encoding of a frame of a kind.
pub record IsEncoded (P : Frame → Type 0) (b : Bytes) : Type 0 where
  pub frame : Frame
  pub encoded : encode frame ≡ success b
  pub kind : P frame

-- Answers have been written, and then one frame at most, an error.
pub record Replied (c c' : Conn) : Type 0 where
  pub answers : List Bytes
  pub errors : List Bytes
  pub all_answers : All (IsEncoded IsAnswerFrame) answers
  pub all_errors : All (IsEncoded IsLastFrame) errors
  pub one_error : length errors ≤ 1
  pub written : c'.sink.written ≡ c.sink.written ++ join (answers ++ errors)

-- Answers have been written, and then no more than the front of one frame.
pub record CutShort (c c' : Conn) : Type 0 where
  pub answers : List Bytes
  pub front : Bytes
  pub back : Bytes
  pub all_answers : All (IsEncoded IsAnswerFrame) answers
  pub one_frame : (front ≡ []) ⊎ IsEncoded IsServerFrame (front ++ back)
  pub written : c'.sink.written ≡ c.sink.written ++ (join answers ++ front)

pub join-append : (xs ys : List Bytes) → join (xs ++ ys) ≡ join xs ++ join ys
join-append [] ys = refl
join-append (x ∷ xs) ys =
    ap (λ (z : Bytes). x ++ z) (join-append xs ys) ∙ sym (append_assoc x (join xs) (join ys))

-- What was written in two steps.
pub written-join :
    (xs ys : List Bytes) (out mid end : Bytes)
    → mid ≡ out ++ join xs
    → end ≡ mid ++ join ys
    → end ≡ out ++ join (xs ++ ys)
written-join xs ys out mid end first second =
    second
    ∙ ap (λ (z : Bytes). z ++ join ys) first
    ∙ append_assoc out (join xs) (join ys)
    ∙ ap (λ (z : Bytes). out ++ z) (sym (join-append xs ys))

IsEncoded-IsWire : (P : Frame → Type 0) (b : Bytes) → IsEncoded P b → IsWire b
IsEncoded-IsWire P b h =
    let f = h.frame in
    let n = length f.payload in
    let (fits, nonzero, wire) = encode-success f h.encoded in
    let hdr = wire_header n f.typ f.flags f.stream_id in
    let size = length-wire_header n f.typ f.flags f.stream_id in
    let front : be_u32 (hdr ++ f.payload) ≡ n =
      be_u32-append hdr f.payload (omega (arith, size))
      ∙ declared-wire_header n f.typ f.flags f.stream_id (omega (arith, fits)) in
    let says : be_u32 b ≡ n = ap be_u32 wire ∙ front in
    record {
      fits = omega (arith, says, fits);
      size = omega (arith, says, length-encode f h.encoded);
    }

All-IsWire : (P : Frame → Type 0) (bs : List Bytes) → All (IsEncoded P) bs → All IsWire bs
All-IsWire P [] h = tt
All-IsWire P (b ∷ bs) (h, hs) = (IsEncoded-IsWire P b h, All-IsWire P bs hs)

pub Replied-IsWire : (c c' : Conn) (h : Replied c c') → All IsWire (h.answers ++ h.errors)
Replied-IsWire c c' h =
    All-append IsWire h.answers h.errors (All-IsWire IsAnswerFrame h.answers h.all_answers)
      (All-IsWire IsLastFrame h.errors h.all_errors)
