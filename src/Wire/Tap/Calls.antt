-- ===== src/Wire/Tap/Calls.antt =====
-- The wrapped connection: its calls answer as those of the connection itself, and the tap is given
-- the bytes that they move.
use bhttp_1_http_in_binary.Base.{
  ◌+◌, ◌≡◌, refl, sym, ap, ◌∙◌, arith, inl, List, [], ◌∷◌, ◌++◌, append-nil, append_assoc, Bytes,
  length, length-append, take, drop, take-append, drop-append, join, All,
}
use bhttp_1_http_in_binary.Conn.{Conn}
use bhttp_1_http_in_binary.Wire.Fronts.{IsWire, IsFront}
use bhttp_1_http_in_binary.Wire.Text.{Arrow, sent, received}
use bhttp_1_http_in_binary.Wire.Tap.{
  Tap, new_tap, feed_tap, Call, net_call, wrap, watch, tapped_call, net_calls, tapped_calls,
}
use bhttp_1_http_in_binary.Wire.Tap.Ledger.{
  Passed, feed_passed, passed, frames_shown, numbers_shown, count_from,
}
use bhttp_1_http_in_binary.Wire.Tap.Interleaved.{feed_passed-Shows}
use bhttp_1_http_in_binary.Wire.Tap.Moves.{net_call-Moves}

passed-append : (a : Arrow) (ps qs : Passed) → passed a (ps ++ qs) ≡ passed a ps ++ passed a qs
passed-append a [] qs = refl
passed-append sent ((sent, b) ∷ ps) qs =
    rw (passed-append sent ps qs) (sym (append_assoc b (passed sent ps) (passed sent qs)))
passed-append sent ((received, b) ∷ ps) qs = passed-append sent ps qs
passed-append received ((sent, b) ∷ ps) qs = passed-append received ps qs
passed-append received ((received, b) ∷ ps) qs =
    rw (passed-append received ps qs)
      (sym (append_assoc b (passed received ps) (passed received qs)))

feed_passed-append :
    (ps qs : Passed) (t : Tap) → feed_passed (ps ++ qs) t ≡ feed_passed qs (feed_passed ps t)
feed_passed-append [] qs t = refl
feed_passed-append ((a, b) ∷ ps) qs t = feed_passed-append ps qs (feed_tap a b t)

-- Many calls.
record Watched (calls : List Call) (c : Conn) (t : Tap) : Type 0 where
  ps : Passed
  answers : (tapped_calls calls (wrap t c)).0 ≡ (net_calls calls c).0
  conn : (tapped_calls calls (wrap t c)).1.conn ≡ (net_calls calls c).1
  fed : (tapped_calls calls (wrap t c)).1.tap ≡ feed_passed ps t
  written : (net_calls calls c).1.sink.written ≡ c.sink.written ++ passed sent ps
  taken : join c.source.chunks ≡ passed received ps ++ join (net_calls calls c).1.source.chunks

tapped_calls-Watched : (calls : List Call) (c : Conn) (t : Tap) → Watched calls c t
unfolding tapped_calls net_calls tapped_call
tapped_calls-Watched [] c t = record {
  ps = [];
  answers = refl;
  conn = refl;
  fed = refl;
  written = sym (append-nil c.sink.written);
  taken = refl;
}
tapped_calls-Watched (call ∷ calls) c t =
    let m = net_call-Moves call c in
    let answer = (net_call call c).0 in
    let mid = (net_call call c).1 in
    let w = tapped_calls-Watched calls mid (watch call answer t) in
    record {
      ps = m.ps ++ w.ps;
      answers = ap (◌∷◌ answer) w.answers;
      conn = w.conn;
      fed = w.fed ∙ ap (feed_passed w.ps) (m.fed t) ∙ sym (feed_passed-append m.ps w.ps t);
      written =
          w.written
          ∙ ap (λ (x : Bytes). x ++ passed sent w.ps) m.written
          ∙ append_assoc c.sink.written (passed sent m.ps) (passed sent w.ps)
          ∙ ap (λ (x : Bytes). c.sink.written ++ x) (sym (passed-append sent m.ps w.ps));
      taken =
          m.taken
          ∙ ap (λ (x : Bytes). passed received m.ps ++ x) w.taken
          ∙ sym (append_assoc (passed received m.ps) (passed received w.ps) _)
          ∙ ap (λ (x : Bytes). x ++ join (net_calls calls mid).1.source.chunks)
              (sym (passed-append received m.ps w.ps));
    }

append_cancel_left : (x y z : Bytes) → x ++ y ≡ x ++ z → y ≡ z
append_cancel_left x y z e =
    sym (drop-append (length x) x y refl) ∙ ap (drop (length x)) e ∙ drop-append (length x) x z refl

append_cancel_right : (x y z : Bytes) → y ++ x ≡ z ++ x → y ≡ z
append_cancel_right x y z e =
    let n : length z ≡ length y =
      omega (arith, ap length e, length-append y x, length-append z x) in
    sym (take-append (length y) y x refl) ∙ ap (take (length y)) e ∙ take-append (length y) z x n

-- Whatever calls are made on a connection that a new tap has wrapped, they answer what they answer
-- without it, and leave the connection the same. If the bytes that they write, and those that they
-- read, are whole frames and the front of another one, the tap has shown exactly the frames
-- written and the frames read, each in their order, and has numbered all of them from 1 on.
pub tapped_calls-Shows :
    (calls : List Call) (c : Conn) (bs cs : List Bytes) (p q : Bytes)
    → All IsWire bs
    → All IsWire cs
    → IsFront p
    → IsFront q
    → (net_calls calls c).1.sink.written ≡ c.sink.written ++ (join bs ++ p)
    → join c.source.chunks ≡ (join cs ++ q) ++ join (net_calls calls c).1.source.chunks
    → let (answers, tapped) = tapped_calls calls (wrap new_tap c) in
      (answers ≡ (net_calls calls c).0)
      × (tapped.conn ≡ (net_calls calls c).1)
      × (frames_shown sent tapped.tap.shown ≡ bs)
      × (frames_shown received tapped.tap.shown ≡ cs)
      × (numbers_shown tapped.tap.shown ≡ count_from 0 (length bs + length cs))
tapped_calls-Shows calls c bs cs p q all_sent all_received front_sent front_received writes_them
      reads_them =
    let w = tapped_calls-Watched calls c new_tap in
    let out : passed sent w.ps ≡ join bs ++ p =
      append_cancel_left c.sink.written _ _ (sym w.written ∙ writes_them) in
    let came : passed received w.ps ≡ join cs ++ q =
      append_cancel_right (join (net_calls calls c).1.source.chunks) _ _
        (sym w.taken ∙ reads_them) in
    let s =
      feed_passed-Shows w.ps new_tap bs cs p q
        (record {
          works = refl;
          starts = inl (omega arith);
          all = all_sent;
          ends = front_sent;
          is = out;
        })
        (record {
          works = refl;
          starts = inl (omega arith);
          all = all_received;
          ends = front_received;
          is = came;
        }) in
    (w.answers, w.conn, rw (w.fed) s.of_sent, rw (w.fed) s.of_received, rw (w.fed) s.numbers)
