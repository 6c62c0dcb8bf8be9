-- ===== src/Wire/Tap/Moves.antt =====
-- The bytes that a call of the wrapped connection moves: the tap is given the same.
use bhttp_1_http_in_binary.Base.{
  ℕ, ◌-◌, ◌≡◌, refl, subst, sym, ap, ◌∙◌, arith, true, inl, inr, Bool-cases, List, [], ◌∷◌, ◌++◌,
  append-nil, append_assoc, Bytes, Error, short_write, Option, none, some, length, length-append,
  take, drop, take-append, take_all, take-append-drop, join, ltb, leb, if◌then◌else◌,
}
use bhttp_1_http_in_binary.Stream.{Source, Sink, Grant, accept, refuse, write_grant, write_once}
use bhttp_1_http_in_binary.Conn.{Conn}
use bhttp_1_http_in_binary.Wire.Text.{Arrow, sent, received}
use bhttp_1_http_in_binary.Wire.Tap.{
  Tap, feed_tap, read_piece, Answer, read_bytes, wrote_count, Call, reads, writes, closes_write,
  net_read, net_write, net_call, watch,
}
use bhttp_1_http_in_binary.Wire.Tap.Ledger.{Passed, feed_passed, passed}

-- The bytes that a call has moved.
abbrev one_piece : Arrow → Bytes → Passed
one_piece a b = if ltb 0 (length b) then (a, b) ∷ [] else []

pub record Moves (call : Call) (answer : Answer) (c after : Conn) : Type 0 where
  pub ps : Passed
  pub written : after.sink.written ≡ c.sink.written ++ passed sent ps
  pub taken : join c.source.chunks ≡ passed received ps ++ join after.source.chunks
  pub fed : (t : Tap) → watch call answer t ≡ feed_passed ps t

passed-one_piece : (a : Arrow) (b : Bytes) → passed a (one_piece a b) ≡ b
passed-one_piece sent [] = refl
passed-one_piece received [] = refl
passed-one_piece sent (x ∷ b) =
    let some_left : ltb 0 (length (x ∷ b)) ≡ true = ground arith in
    rw some_left (append-nil (x ∷ b))
passed-one_piece received (x ∷ b) =
    let some_left : ltb 0 (length (x ∷ b)) ≡ true = ground arith in
    rw some_left (append-nil (x ∷ b))

passed-other :
    (b : Bytes)
    → (passed sent (one_piece received b) ≡ []) × (passed received (one_piece sent b) ≡ [])
passed-other [] = (refl, refl)
passed-other (x ∷ b) =
    let some_left : ltb 0 (length (x ∷ b)) ≡ true = ground arith in rw some_left (refl, refl)

feed_piece :
    (a : Arrow) (b : Bytes) (t : Tap)
    → (if ltb 0 (length b) then feed_tap a b t else t) ≡ feed_passed (one_piece a b) t
feed_piece a b t = elim (Bool-cases (ltb 0 (length b))) [ inl e ↦ rw e refl | inr e ↦ rw e refl ]

-- A Read that returns a piece.
read-Moves :
    (n : ℕ) (b : Bytes) (c : Conn) (left : Source)
    → join c.source.chunks ≡ b ++ join left.chunks
    → Moves (reads n) (read_bytes b none) c (record c { source = left })
unfolding watch
read-Moves n b c left e = record {
  ps = one_piece received b;
  written = rw ((passed-other b).0) (sym (append-nil c.sink.written));
  taken = rw (passed-one_piece received b) e;
  fed = feed_piece received b;
}

-- A Write that takes a front of what it is given.
taken_front : (k : ℕ) (b : Bytes) → take (length (take k b)) b ≡ take k b
taken_front k b =
    ap (take (length (take k b))) (sym (take-append-drop k b))
    ∙ take-append (length (take k b)) (take k b) (drop k b) refl

write-Moves :
    (b x : Bytes) (e : Option Error) (c : Conn) (w : Sink)
    → w.written ≡ c.sink.written ++ x
    → take (length x) b ≡ x
    → Moves
        (writes b)
        (wrote_count (length w.written - length c.sink.written) e)
        c
        (record c { sink = w })
unfolding watch
write-Moves b x e c w is front =
    let n : length w.written - length c.sink.written ≡ length x =
      omega (arith, ap length is, length-append c.sink.written x) in
    record {
      ps = one_piece sent x;
      written = rw (passed-one_piece sent x) is;
      taken = rw ((passed-other x).1) refl;
      fed = λ t. rw (n, front) (feed_piece sent x t);
    }

-- A call whose result is known.
Moves-result :
    (call : Call) (c : Conn) (r s : Answer × Conn)
    → r ≡ s
    → Moves call s.0 c s.1
    → Moves call r.0 c r.1
Moves-result call c r s e m = subst (λ (x : Answer × Conn). Moves call x.0 c x.1) (sym e) m

net_read-Moves :
    (n : ℕ) (c : Conn) (cs : List Bytes)
    → c.source.chunks ≡ cs
    → Moves (reads n) (net_read n c).0 c (net_read n c).1
unfolding net_read read_piece
net_read-Moves n c [] is =
    let left : Source = record { chunks = []; fault = c.source.fault } in
    Moves-result (reads n) c _ (read_bytes [] (some c.source.fault), record c { source = left })
      (rw is refl)
      (record {
        ps = [];
        written = sym (append-nil c.sink.written);
        taken = ap join is;
        fed = λ t. unfold watch in refl;
      })
net_read-Moves n c (b ∷ cs) is = elim (Bool-cases (leb (length b) n)) [
  | inl whole ↦
      let left : Source = record { chunks = cs; fault = c.source.fault } in
      Moves-result (reads n) c _ (read_bytes b none, record c { source = left })
        (rw is (rw whole refl)) (read-Moves n b c left (ap join is))
  | inr part ↦
      let left : Source = record { chunks = drop n b ∷ cs; fault = c.source.fault } in
      let all : join (b ∷ cs) ≡ take n b ++ join left.chunks =
        ap (λ (x : Bytes). x ++ join cs) (sym (take-append-drop n b))
        ∙ append_assoc (take n b) (drop n b) (join cs) in
      Moves-result (reads n) c _ (read_bytes (take n b) none, record c { source = left })
        (rw is (rw part refl)) (read-Moves n (take n b) c left (ap join is ∙ all))
]

-- A Write that has taken `x`.
abbrev write_result : Conn → Bytes → Option Error → List Grant → Answer × Conn
write_result c x e gs =
    let w : Sink = record { written = c.sink.written ++ x; grants = gs } in
    (wrote_count (length w.written - length c.sink.written) e, record c { sink = w })

Moves-write_result :
    (b x : Bytes) (e : Option Error) (c : Conn) (gs : List Grant)
    → net_write b c ≡ write_result c x e gs
    → take (length x) b ≡ x
    → Moves (writes b) (net_write b c).0 c (net_write b c).1
Moves-write_result b x e c gs is front =
    Moves-result (writes b) c (net_write b c) (write_result c x e gs) is
      (write-Moves b x e c _ refl front)

net_write-Moves :
    (b : Bytes) (c : Conn) (gs : List Grant)
    → c.sink.grants ≡ gs
    → Moves (writes b) (net_write b c).0 c (net_write b c).1
unfolding net_write write_once write_grant
net_write-Moves b c [] is = Moves-write_result b b none c [] (rw is refl) (take_all b)
net_write-Moves b c (refuse n e ∷ gs) is =
    Moves-write_result b (take n b) (some e) c gs (rw is refl) (taken_front n b)
net_write-Moves b c (accept n ∷ gs) is = elim (Bool-cases (ltb n (length b))) [
  | inl part ↦
      Moves-write_result b (take n b) (some short_write) c gs (rw is (rw part refl))
        (taken_front n b)
  | inr whole ↦ Moves-write_result b b none c gs (rw is (rw whole refl)) (take_all b)
]

pub net_call-Moves : (call : Call) (c : Conn) → Moves call (net_call call c).0 c (net_call call c).1
unfolding net_call
net_call-Moves (reads n) c = net_read-Moves n c c.source.chunks refl
net_call-Moves (writes b) c = net_write-Moves b c c.sink.grants refl
net_call-Moves closes_write c = record {
  ps = [];
  written = sym (append-nil c.sink.written);
  taken = refl;
  fed = λ t. unfold watch in refl;
}
