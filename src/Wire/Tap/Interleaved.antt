-- ===== src/Wire/Tap/Interleaved.antt =====
-- Two directions that take turns in one tap: what it shows of each.
use bhttp_1_http_in_binary.Base.{
  ℕ, ◌+◌, ◌≡◌, refl, sym, ap, ◌∙◌, arith, false, List, [], ◌∷◌, ◌++◌, append-nil, append_assoc,
  Bytes, length, length-append, join, All,
}
use bhttp_1_http_in_binary.Wire.{feed}
use bhttp_1_http_in_binary.Wire.Fronts.{IsWire, IsFront, numbered, Seen}
use bhttp_1_http_in_binary.Wire.Pieces.{feed-Seen, front_not_whole}
use bhttp_1_http_in_binary.Wire.Text.{Arrow, sent, received}
use bhttp_1_http_in_binary.Wire.Tap.{Tap, direction, framer, marked, put_framer, feed_tap}
use bhttp_1_http_in_binary.Wire.Tap.Ledger.{
  Passed, feed_passed, passed, frames_shown, numbers_shown, count_from, frames_shown-append,
  numbers_shown-append, count_from-add, frames_marked, frames_marked_other, numbers_marked,
}

-- A direction that has frames and the front of one still to come, behind what it keeps.
pub record Awaits (a : Arrow) (t : Tap) (coming : Bytes) (bs : List Bytes) (p : Bytes)
    : Type 0 where
  pub works : (direction a t).broken ≡ false
  pub starts : IsFront (direction a t).buf
  pub all : All IsWire bs
  pub ends : IsFront p
  pub is : (direction a t).buf ++ coming ≡ join bs ++ p

-- What a tap has shown since, of frames sent and received.
pub record Shows (t u : Tap) (bs cs : List Bytes) : Type 0 where
  pub of_sent : frames_shown sent u.shown ≡ frames_shown sent t.shown ++ bs
  pub of_received : frames_shown received u.shown ≡ frames_shown received t.shown ++ cs
  pub numbers :
      numbers_shown u.shown ≡ numbers_shown t.shown ++ count_from t.seq (length bs + length cs)
  pub counted : u.seq ≡ t.seq + (length bs + length cs)

nothing_awaited : (a : Arrow) (t : Tap) (bs : List Bytes) (p : Bytes) → Awaits a t [] bs p → bs ≡ []
nothing_awaited a t [] p w = refl
nothing_awaited a t (b ∷ bs) p w =
    let whole : (direction a t).buf ≡ b ++ (join bs ++ p) =
      sym (append-nil (direction a t).buf) ∙ w.is ∙ append_assoc b (join bs) p in
    absurd (front_not_whole b (join bs ++ p) w.all.0 (rw whole at w.starts))

Shows-nothing : (t : Tap) → Shows t t [] []
Shows-nothing t = record {
  of_sent = sym (append-nil _);
  of_received = sym (append-nil _);
  numbers = sym (append-nil _);
  counted = omega arith;
}

Shows-trans :
    (t u v : Tap) (bs bs' cs cs' ds es : List Bytes)
    → Shows t u bs cs
    → Shows u v bs' cs'
    → ds ≡ bs ++ bs'
    → es ≡ cs ++ cs'
    → Shows t v ds es
Shows-trans t u v bs bs' cs cs' ds es f g d e = record {
  of_sent = rw d (g.of_sent ∙ ap (λ (x : List Bytes). x ++ bs') f.of_sent ∙ append_assoc _ bs bs');
  of_received =
      rw e
        (g.of_received ∙ ap (λ (x : List Bytes). x ++ cs') f.of_received ∙ append_assoc _ cs cs');
  numbers =
      let first = length bs + length cs in
      let later = length bs' + length cs' in
      let n : length ds + length es ≡ first + later =
        rw (d, e) (omega (arith, length-append bs bs', length-append cs cs')) in
      let on : count_from u.seq later ≡ count_from (t.seq + first) later =
        ap (λ (k : ℕ). count_from k later) f.counted in
      rw n (
        g.numbers
        ∙ ap (λ (x : List ℕ). x ++ count_from u.seq later) f.numbers
        ∙ append_assoc (numbers_shown t.shown) (count_from t.seq first) (count_from u.seq later)
        ∙ ap (λ (x : List ℕ). numbers_shown t.shown ++ (count_from t.seq first ++ x)) on
        ∙ ap (λ (x : List ℕ). numbers_shown t.shown ++ x) (count_from-add t.seq first later));
  counted =
      let n = f.counted in
      let m = g.counted in
      rw (d, e) (omega (arith, n, m, length-append bs bs', length-append cs cs'));
}

-- One call of `feed` that shows frames only.
module _ (b : Bytes) (t : Tap) (x : List Bytes) (front : Bytes) where
  abbrev pub FeedShows : Arrow → Type 0
  FeedShows a =
      feed b (framer a t)
      ≡ record { buf = front; broken = false; seq = t.seq + length x; shown = numbered t.seq x }

  numbers_added :
      (a : Arrow)
      → numbers_shown (t.shown ++ marked a (numbered t.seq x))
        ≡ numbers_shown t.shown ++ count_from t.seq (length x)
  numbers_added a =
      numbers_shown-append t.shown (marked a (numbered t.seq x))
      ∙ ap (λ (y : List ℕ). numbers_shown t.shown ++ y) (numbers_marked a t.seq x)

  frames_added :
      (a c : Arrow) (y : List Bytes)
      → frames_shown a (marked c (numbered t.seq x)) ≡ y
      → frames_shown a (t.shown ++ marked c (numbered t.seq x)) ≡ frames_shown a t.shown ++ y
  frames_added a c y e =
      frames_shown-append a t.shown (marked c (numbered t.seq x))
      ∙ ap (λ (z : List Bytes). frames_shown a t.shown ++ z) e

  pub sent-Shows : FeedShows sent → Shows t (feed_tap sent b t) x []
  unfolding feed_tap put_framer
  sent-Shows e =
      let n : length x + 0 ≡ length x = omega arith in
      rw e (record {
        of_sent = frames_added sent sent x (frames_marked sent t.seq x);
        of_received = frames_added received sent [] (frames_marked_other t.seq x).1;
        numbers = rw n (numbers_added sent);
        counted = rw n refl;
      })

  pub received-Shows : FeedShows received → Shows t (feed_tap received b t) [] x
  unfolding feed_tap put_framer
  received-Shows e =
      let n : 0 + length x ≡ length x = omega arith in
      rw e (record {
        of_sent = frames_added sent received [] (frames_marked_other t.seq x).0;
        of_received = frames_added received received x (frames_marked received t.seq x);
        numbers = rw n (numbers_added received);
        counted = rw n refl;
      })

  -- The direction has the front, and the other one is as it was.
  pub sent_direction :
      FeedShows sent
      → (direction sent (feed_tap sent b t) ≡ record { buf = front; broken = false })
        × (direction received (feed_tap sent b t) ≡ direction received t)
  unfolding feed_tap put_framer
  sent_direction e = (rw e refl, refl)

  pub received_direction :
      FeedShows received
      → (direction received (feed_tap received b t) ≡ record { buf = front; broken = false })
        × (direction sent (feed_tap received b t) ≡ direction sent t)
  unfolding feed_tap put_framer
  received_direction e = (rw e refl, refl)

-- The direction that has been fed, and the other one.
Awaits-fed :
    (a : Arrow) (t u : Tap) (coming rest : Bytes) (bs : List Bytes) (p : Bytes)
    (seen : Seen coming rest bs p)
    → direction a u ≡ record { buf = seen.front; broken = false }
    → IsFront p
    → Awaits a u rest seen.later p
Awaits-fed a t u coming rest bs p seen e ends = record {
  works = rw e refl;
  starts = rw e seen.is_front;
  all = seen.all_later;
  ends = ends;
  is = rw e seen.to_see;
}

Awaits-kept :
    (a : Arrow) (t u : Tap) (coming : Bytes) (bs : List Bytes) (p : Bytes)
    → direction a u ≡ direction a t
    → Awaits a t coming bs p
    → Awaits a u coming bs p
Awaits-kept a t u coming bs p e w = record {
  works = rw e w.works;
  starts = rw e w.starts;
  all = w.all;
  ends = w.ends;
  is = rw e w.is;
}

-- Whatever the pieces and their order, the tap shows the frames of each direction.
pub feed_passed-Shows :
    (ps : Passed) (t : Tap) (bs cs : List Bytes) (p q : Bytes)
    → Awaits sent t (passed sent ps) bs p
    → Awaits received t (passed received ps) cs q
    → Shows t (feed_passed ps t) bs cs
feed_passed-Shows [] t bs cs p q w v =
    rw (nothing_awaited sent t bs p w, nothing_awaited received t cs q v) (Shows-nothing t)
feed_passed-Shows ((sent, b) ∷ ps) t bs cs p q w v =
    let (seen, e) = feed-Seen b (passed sent ps) bs p (framer sent t) w.works w.all w.ends w.is in
    let u = feed_tap sent b t in
    let (fed, kept) = sent_direction b t seen.first seen.front e in
    let next =
      feed_passed-Shows ps u seen.later cs p q (Awaits-fed sent t u _ _ bs p seen fed w.ends)
        (Awaits-kept received t u _ cs q kept v) in
    Shows-trans t u (feed_passed ps u) seen.first seen.later [] cs bs cs
      (sent-Shows b t seen.first seen.front e) next seen.split refl
feed_passed-Shows ((received, b) ∷ ps) t bs cs p q w v =
    let (seen, e) =
      feed-Seen b (passed received ps) cs q (framer received t) v.works v.all v.ends v.is in
    let u = feed_tap received b t in
    let (fed, kept) = received_direction b t seen.first seen.front e in
    let next =
      feed_passed-Shows ps u bs seen.later p q (Awaits-kept sent t u _ bs p kept w)
        (Awaits-fed received t u _ _ cs q seen fed v.ends) in
    Shows-trans t u (feed_passed ps u) [] bs seen.first seen.later bs cs
      (received-Shows b t seen.first seen.front e) next refl seen.split
