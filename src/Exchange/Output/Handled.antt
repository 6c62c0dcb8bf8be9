-- ===== src/Exchange/Output/Handled.antt =====
-- What `handle` writes: on a connection whose writes succeed, and on any.
use bhttp_1_http_in_binary.Base.{
  ◌≡◌, refl, sym, ap, ◌∙◌, arith, true, false, inl, inr, ◌⊎◌, List, [], ◌∷◌, ◌++◌, append-nil,
  Bytes, All, join, min, length, take, drop, suc, ◌==◌, success, Outcome, ok, err, Bool-cases,
}
use bhttp_1_http_in_binary.Stream.{Grant, accept, refuse, Sink}
use bhttp_1_http_in_binary.Frame.{Frame, encode}
use bhttp_1_http_in_binary.Frame.Writer.{write_loop, write_all, write}
use bhttp_1_http_in_binary.Frame.Writer.Delivery.{Advances, Delivers, write_sends, write-Delivers}
use bhttp_1_http_in_binary.Conn.{Conn}
use bhttp_1_http_in_binary.Server.Paths.{FilePath}
use bhttp_1_http_in_binary.Server.Resolver.{FileSystem}
use bhttp_1_http_in_binary.Server.Requests.Writing.{Leaves}
use bhttp_1_http_in_binary.Server.Loop.{handle}
use bhttp_1_http_in_binary.Server.Loop.Ending.{handle-Closes}
use bhttp_1_http_in_binary.Exchange.Output.{
  IsServerFrame, IsEncoded, Replied, CutShort, join-append,
}
use bhttp_1_http_in_binary.Exchange.Output.Terms.{Terms, is_body_error, Emitted}
use bhttp_1_http_in_binary.Exchange.Output.Connection.{handle-Emits}
use bhttp_1_http_in_binary.Exchange.Sent.Body.{IsHealthy}

-- What a Write does on the two kinds of terms.
abbrev Writes : (Grant → Type 0) → Type 0 → Bytes → Bytes → Outcome Sink (Unit {0}) → Type 0
Writes grants may_fail out b o =
    Leaves (λ (v : Sink). (v.written ≡ out ++ b) × All grants v.grants)
      (λ e v.
        may_fail
        × (is_body_error e ≡ false)
        × ((front : Bytes) × (back : Bytes) × (b ≡ front ++ back) × (v.written ≡ out ++ front)))
      o

healthy-Writes :
    (f : Frame) (b : Bytes) (w : Sink)
    → encode f ≡ success b
    → All Advances w.grants
    → Writes Advances ⊥ w.written b (write f w)
healthy-Writes f b w e h =
    let (v, sent, written, left) = write_sends f w e h in rw sent (written, left)

-- Every Write succeeds.
abbrev healthy : Terms
healthy = record { grants = Advances; may_fail = ⊥; writes = healthy-Writes }

-- An error of a Write is none that only the server makes.
abbrev pub IsForeign : Grant → Type 0
IsForeign (accept n) = Unit
IsForeign (refuse n e) = is_body_error e ≡ false

-- What is left of the grants, and the error, do not depend on what has been written.
write_loop-IsForeign :
    (gs : List Grant) (out b : Bytes)
    → All IsForeign gs
    → Leaves
        (λ (v : Sink). All IsForeign v.grants)
        (λ e v. is_body_error e ≡ false)
        (write_loop gs out b)
unfolding write_loop
write_loop-IsForeign gs out [] h = h
write_loop-IsForeign [] out (x ∷ b) h = tt
write_loop-IsForeign (accept n ∷ gs) out (x ∷ b) (h, hs) =
    let m = min n (suc (length b)) in
    elim (Bool-cases (m == 0)) [
      | inl stuck ↦ rw stuck refl
      | inr more ↦ rw more (write_loop-IsForeign gs (out ++ take m (x ∷ b)) (drop m (x ∷ b)) hs)
    ]
write_loop-IsForeign (refuse n e ∷ gs) out (x ∷ b) (h, hs) = h

write-IsForeign :
    (f : Frame) (b : Bytes) (w : Sink)
    → encode f ≡ success b
    → All IsForeign w.grants
    → Leaves (λ (v : Sink). All IsForeign v.grants) (λ e v. is_body_error e ≡ false) (write f w)
unfolding write write_all
write-IsForeign f b w e h = rw e (write_loop-IsForeign w.grants w.written b h)

Writes-Delivers :
    (out b : Bytes) (o : Outcome Sink (Unit {0}))
    → Delivers out b o
    → Leaves (λ (v : Sink). All IsForeign v.grants) (λ e v. is_body_error e ≡ false) o
    → Writes IsForeign (Unit {0}) out b o
Writes-Delivers out b (ok u v) written left = (written, left)
Writes-Delivers out b (err e v) cut foreign = (tt, foreign, cut)

IsForeign-Writes :
    (f : Frame) (b : Bytes) (w : Sink)
    → encode f ≡ success b
    → All IsForeign w.grants
    → Writes IsForeign (Unit {0}) w.written b (write f w)
IsForeign-Writes f b w e h =
    Writes-Delivers w.written b (write f w) (write-Delivers f w e) (write-IsForeign f b w e h)

-- A Write may fail at any point, and take any part of what it is given.
abbrev foreign : Terms
foreign = record { grants = IsForeign; may_fail = Unit {0}; writes = IsForeign-Writes }

Emitted-Replied : (c c' : Conn) → Emitted healthy c c' → Replied c c'
Emitted-Replied c c' h = elim h.is_last [
  | inl empty ↦ record {
    answers = h.answers;
    errors = [];
    all_answers = h.all;
    all_errors = tt;
    one_error = omega arith;
    written =
        h.written
        ∙ ap (λ (z : Bytes). c.sink.written ++ z) (rw empty (sym (join-append h.answers [])));
  }
  | inr (inl error) ↦ record {
    answers = h.answers;
    errors = h.last ∷ [];
    all_answers = h.all;
    all_errors = (error, tt);
    one_error = omega arith;
    written =
        h.written
        ∙ ap (λ (z : Bytes). c.sink.written ++ z)
            (ap (λ (z : Bytes). join h.answers ++ z) (sym (append-nil h.last))
              ∙ sym (join-append h.answers (h.last ∷ [])));
  }
  | inr (inr cut) ↦ absurd cut.0
]

cut_short :
    (c c' : Conn) (h : Emitted foreign c c') (back : Bytes)
    → (h.last ≡ []) ⊎ IsEncoded IsServerFrame (h.last ++ back)
    → CutShort c c'
cut_short c c' h back one = record {
  answers = h.answers;
  front = h.last;
  back = back;
  all_answers = h.all;
  one_frame = one;
  written = h.written;
}

Emitted-CutShort : (c c' : Conn) → Emitted foreign c c' → CutShort c c'
Emitted-CutShort c c' h = elim h.is_last [
  | inl empty ↦ cut_short c c' h [] (inl empty)
  | inr (inl error) ↦ cut_short c c' h [] (
      inr (record {
        frame = error.frame;
        encoded = rw append-nil error.encoded;
        kind = inr error.kind;
      }))
  | inr (inr (u, (back, one))) ↦ cut_short c c' h back (inr one)
]

module _ (fs : FileSystem) (root : FilePath) where
  -- Whatever bytes arrive on a healthy connection, and whatever the file system does: handle
  -- returns with the connection closed, and has written whole frames only: RESPONSE and DATA
  -- frames, and behind them one frame at most, an ERROR on stream 0.
  pub handle-Replied :
      (c : Conn)
      → IsHealthy c
      → (c' : Conn) × (handle fs root c ≡ ok tt c') × (c'.closed ≡ true) × Replied c c'
  handle-Replied c h =
      let (c', returns, shut) = handle-Closes fs root c in
      let out = handle-Emits healthy fs root c h in
      (c', returns, shut, Emitted-Replied c c' (rw returns at out))

  -- Whatever bytes arrive, whatever the file system does, and however the writes go, whole, in
  -- parts or failing anywhere, if no Write returns the server's own *bodyError: handle returns
  -- with the connection closed, and has written whole RESPONSE and DATA frames, and behind them at
  -- most the front of one more frame: nothing follows a frame that was cut short.
  pub handle-CutShort :
      (c : Conn)
      → All IsForeign c.sink.grants
      → (c' : Conn) × (handle fs root c ≡ ok tt c') × (c'.closed ≡ true) × CutShort c c'
  handle-CutShort c h =
      let (c', returns, shut) = handle-Closes fs root c in
      let out = handle-Emits foreign fs root c h in
      (c', returns, shut, Emitted-CutShort c c' (rw returns at out))
