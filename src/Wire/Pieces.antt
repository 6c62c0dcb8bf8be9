-- ===== src/Wire/Pieces.antt =====
-- The framer shows the frames of the stream, whatever the pieces are in which it sees the bytes.
use bhttp_1_http_in_binary.Base.{
  ℕ, suc, ◌+◌, ◌≡◌, refl, sym, ap, ◌∙◌, arith, Bool, false, List, [], ◌∷◌, ◌++◌, append-nil,
  append_assoc, Bytes, length, length-append, join, All,
}
use bhttp_1_http_in_binary.Wire.{Framer, feed}
use bhttp_1_http_in_binary.Wire.Fronts.{
  IsWire, IsFront, numbered, be_u32-append, feed_loop-IsWire, Seen, stream_part,
}

numbered-append :
    (n : ℕ) (xs ys : List Bytes)
    → numbered n (xs ++ ys) ≡ numbered n xs ++ numbered (n + length xs) ys
numbered-append n [] ys = let e : n + 0 ≡ n = omega arith in rw e refl
numbered-append n (x ∷ xs) ys =
    let e : n + 1 + length xs ≡ n + suc (length xs) = omega arith in
    rw (numbered-append (n + 1) xs ys, e) refl

-- `Write` or `Read` on the connection, piece by piece.
abbrev pub feed_all : List Bytes → Framer → Framer
feed_all [] f = f
feed_all (c ∷ cs) f = feed_all cs (feed c f)

-- One piece.
pub feed-Seen :
    (c rest : Bytes) (bs : List Bytes) (p : Bytes) (f : Framer)
    → f.broken ≡ false
    → All IsWire bs
    → IsFront p
    → f.buf ++ (c ++ rest) ≡ join bs ++ p
    → (seen : Seen (f.buf ++ c) rest bs p) × (feed c f ≡ record {
      buf = seen.front;
      broken = false;
      seq = f.seq + length seen.first;
      shown = f.shown ++ numbered f.seq seen.first;
    })
unfolding feed
feed-Seen c rest bs p f works all front is =
    let seen = stream_part bs p (f.buf ++ c) rest all front (append_assoc f.buf c rest ∙ is) in
    (
      seen,
      rw works (
          feed_loop-IsWire seen.first (suc (length (f.buf ++ c))) seen.front
            (record f { buf = f.buf ++ c; broken = false }) seen.all_first seen.is_front seen.seen
            (omega arith)),
    )

pub front_not_whole : (b rest : Bytes) → IsWire b → IsFront (b ++ rest) → ⊥
front_not_whole b rest h front =
    let same = be_u32-append b rest (omega (arith, h.size)) in
    ground (arith, front, same, h.size, length-append b rest)

abbrev framer_at : Bytes → Framer → List Bytes → Framer
framer_at p f bs = record {
  buf = p;
  broken = false;
  seq = f.seq + length bs;
  shown = f.shown ++ numbered f.seq bs;
}

framer_at-nil : (p : Bytes) (f : Framer) → f.broken ≡ false → f.buf ≡ p → f ≡ framer_at p f []
framer_at-nil p f works same =
    let n : f.seq + 0 ≡ f.seq = omega arith in
    ap (λ (x : Bytes). record f { buf = x }) same
    ∙ ap (λ (x : Bool). record f { buf = p; broken = x }) works
    ∙ rw (n, append-nil f.shown) refl

framer_at-append :
    (p q : Bytes) (f : Framer) (xs ys bs : List Bytes)
    → bs ≡ xs ++ ys
    → framer_at p (framer_at q f xs) ys ≡ framer_at p f bs
framer_at-append p q f xs ys bs split =
    let n : f.seq + length xs + length ys ≡ f.seq + length bs =
      omega (arith, ap length split, length-append xs ys) in
    rw n (
      rw (append_assoc f.shown (numbered f.seq xs) (numbered (f.seq + length xs) ys), split)
        (rw (numbered-append f.seq xs ys) refl))

-- Whatever the pieces are in which the framer sees the bytes of whole frames and the front of
-- another one, it shows exactly those frames, in their order and numbered on, and keeps the front.
pub feed_all-IsWire :
    (cs bs : List Bytes) (p : Bytes) (f : Framer)
    → f.broken ≡ false
    → IsFront f.buf
    → All IsWire bs
    → IsFront p
    → f.buf ++ join cs ≡ join bs ++ p
    → feed_all cs f ≡ record {
      buf = p;
      broken = false;
      seq = f.seq + length bs;
      shown = f.shown ++ numbered f.seq bs;
    }
feed_all-IsWire [] [] p f works start all front is =
    framer_at-nil p f works (sym (append-nil f.buf) ∙ is)
feed_all-IsWire [] (b ∷ bs) p f works start (h, all) front is =
    let whole : f.buf ≡ b ++ (join bs ++ p) =
      sym (append-nil f.buf) ∙ is ∙ append_assoc b (join bs) p in
    absurd (front_not_whole b (join bs ++ p) h (rw whole at start))
feed_all-IsWire (c ∷ cs) bs p f works start all front is =
    let (seen, one) = feed-Seen c (join cs) bs p f works all front is in
    let f' = framer_at seen.front f seen.first in
    ap (feed_all cs) one
    ∙ feed_all-IsWire cs seen.later p f' refl seen.is_front seen.all_later front seen.to_see
    ∙ framer_at-append p seen.front f seen.first seen.later bs seen.split
