-- ===== src/Exchange/Output/Terms.antt =====
-- On what terms a connection takes what is written to it, and what code that writes leaves behind.
use bhttp_1_http_in_binary.Base.{
  ◌≡◌, refl, sym, ap, ◌∙◌, Bool, true, false, inl, inr, ◌⊎◌, List, [], ◌++◌, append-nil,
  append_assoc, Bytes, All, All-append, join, success, failure, Error, body_error, Outcome, ok, err,
  map_state,
}
use bhttp_1_http_in_binary.Stream.{Grant, Sink}
use bhttp_1_http_in_binary.Frame.{Frame, encode}
use bhttp_1_http_in_binary.Frame.Writer.{write}
use bhttp_1_http_in_binary.Frame.Writer.Delivery.{write_refused}
use bhttp_1_http_in_binary.Conn.{Conn, write_conn}
use bhttp_1_http_in_binary.Server.Requests.Writing.{Leaves, IsAnswerFrame}
use bhttp_1_http_in_binary.Exchange.Output.{
  IsLastFrame, IsServerFrame, IsEncoded, join-append, written-join,
}

abbrev pub is_body_error : Error → Bool
is_body_error (body_error e) = true
is_body_error _ = false

-- What is known of the coming Write calls, whether one may fail, and what Write then does.
pub record Terms : Type 1 where
  pub grants : Grant → Type 0
  pub may_fail : Type 0
  pub writes :
      (f : Frame) (b : Bytes) (w : Sink)
      → encode f ≡ success b
      → All grants w.grants
      → Leaves
          (λ (v : Sink). (v.written ≡ w.written ++ b) × All grants v.grants)
          (λ e v.
            may_fail
            × (is_body_error e ≡ false)
            × ((front : Bytes) × (back : Bytes) × (b ≡ front ++ back)
                × (v.written ≡ w.written ++ front)))
          (write f w)

module _ (t : Terms) where
  -- The connection is as it was agreed.
  abbrev pub Stands : Conn → Type 0
  Stands c = All t.grants c.sink.grants

  -- Whole answers have been written, and nothing else.
  pub record Wrote (c c' : Conn) : Type 0 where
    pub frames : List Bytes
    pub all : All (IsEncoded IsAnswerFrame) frames
    pub written : c'.sink.written ≡ c.sink.written ++ join frames
    pub stands : Stands c'

  -- The last piece of a connection: nothing, an error, or the front of a frame.
  abbrev pub IsLast : Bytes → Type 0
  IsLast x =
      (x ≡ [])
      ⊎ (IsEncoded IsLastFrame x
          ⊎ (t.may_fail × ((back : Bytes) × IsEncoded IsServerFrame (x ++ back))))

  pub record Emitted (c c' : Conn) : Type 0 where
    pub answers : List Bytes
    pub all : All (IsEncoded IsAnswerFrame) answers
    pub last : Bytes
    pub is_last : IsLast last
    pub written : c'.sink.written ≡ c.sink.written ++ (join answers ++ last)

  -- Behind an error that is none about a file, nothing more is written.
  abbrev pub Stopped : Error → Conn → Conn → Type 0
  Stopped e c c' = Wrote c c' ⊎ ((is_body_error e ≡ false) × Emitted c c')

  pub Wrote-same : (c c' : Conn) → Stands c → c'.sink ≡ c.sink → Wrote c c'
  Wrote-same c c' h e = record {
    frames = [];
    all = tt;
    written = rw e (sym (append-nil c.sink.written));
    stands = rw e h;
  }

  pub Wrote-then : (a b c : Conn) → Wrote a b → Wrote b c → Wrote a c
  Wrote-then a b c h k = record {
    frames = h.frames ++ k.frames;
    all = All-append (IsEncoded IsAnswerFrame) h.frames k.frames h.all k.all;
    written =
        written-join h.frames k.frames a.sink.written b.sink.written c.sink.written h.written
          k.written;
    stands = k.stands;
  }

  pub Emitted-then : (a b c : Conn) → Wrote a b → Emitted b c → Emitted a c
  Emitted-then a b c h k = record {
    answers = h.frames ++ k.answers;
    all = All-append (IsEncoded IsAnswerFrame) h.frames k.answers h.all k.all;
    last = k.last;
    is_last = k.is_last;
    written =
        k.written
        ∙ ap (λ (z : Bytes). z ++ (join k.answers ++ k.last)) h.written
        ∙ append_assoc a.sink.written (join h.frames) (join k.answers ++ k.last)
        ∙ ap (λ (z : Bytes). a.sink.written ++ z)
            (sym (append_assoc (join h.frames) (join k.answers) k.last)
              ∙ ap (λ (z : Bytes). z ++ k.last) (sym (join-append h.frames k.answers)));
  }

  -- Nothing but a last piece.
  pub Emitted-last :
      (c c' : Conn) (x : Bytes) → IsLast x → c'.sink.written ≡ c.sink.written ++ x → Emitted c c'
  Emitted-last c c' x is e = record { answers = []; all = tt; last = x; is_last = is; written = e }

  pub Emitted-same : (c c' : Conn) → c'.sink ≡ c.sink → Emitted c c'
  Emitted-same c c' e = Emitted-last c c' [] (inl refl) (rw e (sym (append-nil c.sink.written)))

  pub Emitted-move : (c a b : Conn) → b.sink ≡ a.sink → Emitted c a → Emitted c b
  Emitted-move c a b e h = record {
    answers = h.answers;
    all = h.all;
    last = h.last;
    is_last = h.is_last;
    written = rw e h.written;
  }

  pub Stopped-then : (e : Error) (a b c : Conn) → Wrote a b → Stopped e b c → Stopped e a c
  Stopped-then e a b c h (inl k) = inl (Wrote-then a b c h k)
  Stopped-then e a b c h (inr (other, k)) = inr (other, Emitted-then a b c h k)

  -- A frame of the server is written, or a front of it.
  write-Leaves :
      (f : Frame) (b : Bytes) (c : Conn) (o : Outcome Sink (Unit {0}))
      → encode f ≡ success b
      → IsServerFrame f
      → Leaves
          (λ (v : Sink). (v.written ≡ c.sink.written ++ b) × All t.grants v.grants)
          (λ e v.
            t.may_fail
            × (is_body_error e ≡ false)
            × ((front : Bytes) × (back : Bytes) × (b ≡ front ++ back)
                × (v.written ≡ c.sink.written ++ front)))
          o
      → Leaves
          (λ c'. (c'.sink.written ≡ c.sink.written ++ b) × Stands c')
          (λ e c'. (is_body_error e ≡ false) × Emitted c c')
          (map_state (λ w. record c { sink = w }) o)
  write-Leaves f b c (ok u v) e is h = h
  write-Leaves f b c (err x v) e is (fails, other, (front, back, split, written)) = (
    other,
    Emitted-last c (record c { sink = v }) front
        (inr (inr (fails, (back, record { frame = f; encoded = rw (← split) e; kind = is }))))
        written,
  )

  pub write_conn-success :
      (f : Frame) (b : Bytes) (c : Conn)
      → encode f ≡ success b
      → IsServerFrame f
      → Stands c
      → Leaves
          (λ c'. (c'.sink.written ≡ c.sink.written ++ b) × Stands c')
          (λ e c'. (is_body_error e ≡ false) × Emitted c c')
          (write_conn f c)
  unfolding write_conn
  write_conn-success f b c e is h =
      write-Leaves f b c (write f c.sink) e is (t.writes f b c.sink e h)

  pub write_conn-failure :
      (f : Frame) (c : Conn) {e : Error} → encode f ≡ failure e → write_conn f c ≡ err e c
  unfolding write_conn
  write_conn-failure f c e = rw (write_refused f c.sink e) refl
