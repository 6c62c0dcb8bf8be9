-- ===== src/Frame/Writer/Delivery.antt =====
-- What reaches the writer, on every way out of `writeAll` and `Write`.
use bhttp_1_http_in_binary.Base.{
  ◌≡◌, refl, sym, subst, ◌∙◌, arith, Bool-cases, inl, inr, Bytes, List, [], ◌∷◌, ◌++◌, append-nil,
  append_assoc, success, failure, Error, Outcome, ok, err, ◌==◌, min, length, take, drop,
  take-append-drop, All, suc, ◌<◌,
}
use bhttp_1_http_in_binary.Stream.{Grant, accept, refuse, Sink}
use bhttp_1_http_in_binary.Frame.{Frame, encode}
use bhttp_1_http_in_binary.Frame.Writer.{write_loop, write_all, write}

-- On success all of `b` is out; on an error the front of it is, and nothing else.
abbrev pub Delivers : Bytes → Bytes → Outcome Sink (Unit {0}) → Type 0
Delivers out b (ok _ w) = w.written ≡ out ++ b
Delivers out b (err _ w) =
    (front : Bytes) × (back : Bytes) × (b ≡ front ++ back) × (w.written ≡ out ++ front)

-- The writes behind a first piece.
Delivers-later :
    (out piece b : Bytes) (o : Outcome Sink (Unit {0}))
    → Delivers (out ++ piece) b o
    → Delivers out (piece ++ b) o
Delivers-later out piece b (ok _ w) d = d ∙ append_assoc out piece b
Delivers-later out piece b (err _ w) (front, back, split, d) =
    (piece ++ front, back, rw (split, append_assoc), d ∙ append_assoc out piece front)

write_loop-Delivers : (gs : List Grant) (out b : Bytes) → Delivers out b (write_loop gs out b)
unfolding write_loop
write_loop-Delivers gs out [] = sym (append-nil out)
write_loop-Delivers [] out (x ∷ b) = refl
write_loop-Delivers (accept n ∷ gs) out (x ∷ b) =
    let m = min n (length (x ∷ b)) in
    elim (Bool-cases (m == 0)) [
      | inl stuck ↦ rw stuck ([], x ∷ b, refl, sym (append-nil out))
      | inr more ↦ rw more (
          subst
            (λ (z : Bytes). Delivers out z (write_loop gs (out ++ take m (x ∷ b)) (drop m (x ∷ b))))
            (take-append-drop m (x ∷ b))
            (Delivers-later out (take m (x ∷ b)) (drop m (x ∷ b)) _
              (write_loop-Delivers gs (out ++ take m (x ∷ b)) (drop m (x ∷ b)))))
    ]
write_loop-Delivers (refuse n e ∷ gs) out (x ∷ b) =
    (take n (x ∷ b), drop n (x ∷ b), sym (take-append-drop n (x ∷ b)), refl)

pub write_all-Delivers : (b : Bytes) (w : Sink) → Delivers w.written b (write_all b w)
unfolding write_all
write_all-Delivers b w = write_loop-Delivers w.grants w.written b

-- A Write that cannot fail takes a byte at least.
abbrev pub Advances : Grant → Type 0
Advances (accept n) = 0 < n
Advances (refuse n e) = ⊥

-- However short the writes are, the loop gets everything out if each makes progress.
write_loop-ok :
    (gs : List Grant) (out b : Bytes)
    → All Advances gs
    → (w : Sink) × (write_loop gs out b ≡ ok tt w) × All Advances w.grants
unfolding write_loop
write_loop-ok gs out [] h = (_, refl, h)
write_loop-ok [] out (x ∷ b) h = (_, refl, tt)
write_loop-ok (accept n ∷ gs) out (x ∷ b) (h, hs) =
    let m = min n (suc (length b)) in
    let (w, e, left) = write_loop-ok gs (out ++ take m (x ∷ b)) (drop m (x ∷ b)) hs in
    (w, ground (arith, e), left)
write_loop-ok (refuse n e ∷ gs) out (x ∷ b) (h, hs) = absurd h

-- Whatever the writer does, a Write that succeeds has written the whole frame, and one that fails
-- has written a front of it and nothing else.
pub write-Delivers :
    (f : Frame) (w : Sink) {b : Bytes} → encode f ≡ success b → Delivers w.written b (write f w)
unfolding write
write-Delivers f w {b} e = rw e (write_all-Delivers b w)

-- On a writer whose writes make progress, however short they are, Write succeeds and exactly the
-- encoding has been written.
pub write_sends :
    (f : Frame) (w : Sink) {b : Bytes}
    → encode f ≡ success b
    → All Advances w.grants
    → (v : Sink) × (write f w ≡ ok tt v) × (v.written ≡ w.written ++ b) × All Advances v.grants
unfolding write write_all
write_sends f w {b} e h =
    let (v, sent, left) = write_loop-ok w.grants w.written b h in
    (v, rw e sent, rw sent at (write_loop-Delivers w.grants w.written b), left)

-- A frame that cannot be encoded leaves nothing on the wire.
pub write_refused : (f : Frame) (w : Sink) {e : Error} → encode f ≡ failure e → write f w ≡ err e w
unfolding write
write_refused f w e = rw e
