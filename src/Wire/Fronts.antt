-- ===== src/Wire/Fronts.antt =====
-- Whole frames and the front of another one: what the loop of `feed` makes of them, and what is seen of
-- a stream of them at any point.
use bhttp_1_http_in_binary.Base.{
  ℕ, zero, suc, ◌+◌, ◌≤◌, ◌<◌, ◌≡◌, refl, sym, ap, ◌∙◌, arith, false, inl, inr, ◌⊎◌, List, [], ◌∷◌,
  ◌++◌, append-nil, append_assoc, Bytes, be_u32, ltb, length, length-append, take, drop,
  take-append, drop-append, join, All, Bool-cases, take-append-drop, take-append_le, drop-append_le,
}
use bhttp_1_http_in_binary.Frame.{header_size, max_payload}
use bhttp_1_http_in_binary.Wire.{Shown, whole_frame, Framer, print_frame, feed_loop}

-- The bytes of one frame, of whatever type.
pub record IsWire (b : Bytes) : Type 0 where
  pub fits : be_u32 b ≤ max_payload
  pub size : length b ≡ header_size + be_u32 b

-- The front of a frame that is still to come.
abbrev pub IsFront : Bytes → Type 0
IsFront p =
    (length p < header_size) ⊎ ((be_u32 p ≤ max_payload) × (length p < header_size + be_u32 p))

-- What is shown for frames, numbered on from those before.
abbrev pub numbered : ℕ → List Bytes → List Shown
numbered n [] = []
numbered n (b ∷ bs) = whole_frame (n + 1) b ∷ numbered (n + 1) bs

-- The length is in the first four bytes.
pub be_u32-append : (b rest : Bytes) → 4 ≤ length b → be_u32 (b ++ rest) ≡ be_u32 b
unfolding be_u32
be_u32-append [] rest h = absurd (omega arith)
be_u32-append (x ∷ []) rest h = absurd (omega arith)
be_u32-append (x ∷ y ∷ []) rest h = absurd (omega arith)
be_u32-append (x ∷ y ∷ z ∷ []) rest h = absurd (omega arith)
be_u32-append (x ∷ y ∷ z ∷ w ∷ b) rest h = refl

feed_loop-front : (fuel : ℕ) (f : Framer) → IsFront f.buf → feed_loop fuel f ≡ f
unfolding feed_loop
feed_loop-front zero f h = refl
feed_loop-front (suc fuel) f h = ground arith

-- The loop shows all the whole frames that there are.
pub feed_loop-IsWire :
    (bs : List Bytes) (fuel : ℕ) (p : Bytes) (f : Framer)
    → All IsWire bs
    → IsFront p
    → f.buf ≡ join bs ++ p
    → length f.buf < fuel
    → feed_loop fuel f ≡ record {
      buf = p;
      broken = f.broken;
      seq = f.seq + length bs;
      shown = f.shown ++ numbered f.seq bs;
    }
unfolding feed_loop print_frame
feed_loop-IsWire bs zero p f all front is enough = absurd (omega arith)
feed_loop-IsWire [] (suc fuel) p f all front is enough =
    let same : f.buf ≡ p = is in
    let here : record f { buf = p }
        ≡ record { buf = p; broken = f.broken; seq = f.seq + 0; shown = f.shown ++ [] } =
      let n : f.seq + 0 ≡ f.seq = omega arith in rw (n, append-nil f.shown) refl in
    feed_loop-front (suc fuel) f (rw same front)
    ∙ ap (λ (x : Bytes). record f { buf = x }) same
    ∙ here
feed_loop-IsWire (b ∷ bs) (suc fuel) p f (h, all) front is enough =
    let whole : f.buf ≡ b ++ (join bs ++ p) = is ∙ append_assoc b (join bs) p in
    let size : be_u32 f.buf ≡ be_u32 b =
      ap be_u32 whole ∙ be_u32-append b (join bs ++ p) (omega (arith, h.size)) in
    let long : length f.buf ≡ length b + length (join bs ++ p) =
      ap length whole ∙ length-append b (join bs ++ p) in
    let cut : take (header_size + be_u32 f.buf) f.buf ≡ b =
      ap (take (header_size + be_u32 f.buf)) whole
      ∙ take-append _ b (join bs ++ p) (omega (arith, h.size, size)) in
    let left : drop (header_size + be_u32 f.buf) f.buf ≡ join bs ++ p =
      ap (drop (header_size + be_u32 f.buf)) whole
      ∙ drop-append _ b (join bs ++ p) (omega (arith, h.size, size)) in
    let f' = record f {
      buf = join bs ++ p;
      seq = f.seq + 1;
      shown = f.shown ++ (whole_frame (f.seq + 1) b ∷ []);
    } in
    let later = feed_loop-IsWire bs fuel p f' all front refl (omega (arith, long, h.size)) in
    let t1 : ltb (length f.buf) header_size ≡ false = ground (arith, long, h.size) in
    let t2 : ltb max_payload (be_u32 f.buf) ≡ false = ground (arith, size, h.fits) in
    let t3 : ltb (length f.buf) (header_size + be_u32 f.buf) ≡ false =
      ground (arith, long, size, h.size) in
    let n : f.seq + 1 + length bs ≡ f.seq + suc (length bs) = omega arith in
    let one = whole_frame (f.seq + 1) b ∷ [] in
    rw (t1, t2, t3)
      (rw (cut, left) (later ∙ rw (n, append_assoc f.shown one (numbered (f.seq + 1) bs)) refl))

-- The front of a front is a front.
IsFront-prefix : (x rest : Bytes) → IsFront (x ++ rest) → IsFront x
IsFront-prefix x rest h = elim (Bool-cases (ltb (length x) header_size)) [
  | inl short ↦ inl (ground arith)
  | inr long ↦
      let same = be_u32-append x rest (ground arith) in
      inr (ground (arith, h, same, length-append x rest))
]

-- A frame that is not all there is a front.
IsFront-cut : (b x rest : Bytes) → IsWire b → x ++ rest ≡ b → length x < length b → IsFront x
IsFront-cut b x rest h is cut = elim (Bool-cases (ltb (length x) header_size)) [
  | inl short ↦ inl (ground arith)
  | inr long ↦
      let same : be_u32 b ≡ be_u32 x = ap be_u32 (sym is) ∙ be_u32-append x rest (ground arith) in
      inr (omega (arith, h.fits, h.size, same), omega (arith, h.fits, h.size, same))
]

-- What is seen of a stream of frames is the first of them, and a front of what follows.
pub record Seen (x rest : Bytes) (bs : List Bytes) (p : Bytes) : Type 0 where
  pub first : List Bytes
  pub later : List Bytes
  pub front : Bytes
  pub split : bs ≡ first ++ later
  pub all_first : All IsWire first
  pub all_later : All IsWire later
  pub is_front : IsFront front
  pub seen : x ≡ join first ++ front
  pub to_see : front ++ rest ≡ join later ++ p

-- Of two fronts of the same bytes the shorter one is a front of the longer one.
prefix_cut :
    (x b r s : Bytes)
    → x ++ r ≡ b ++ s
    → length x ≤ length b
    → (x ++ drop (length x) b ≡ b) × (r ≡ drop (length x) b ++ s)
prefix_cut x b r s is short =
    let n = length x in
    let front : take n b ≡ x =
      sym (take-append_le n b s short) ∙ ap (take n) (sym is) ∙ take-append n x r refl in
    (
      ap (λ (z : Bytes). z ++ drop n b) (sym front) ∙ take-append-drop n b,
      sym (drop-append n x r refl) ∙ ap (drop n) is ∙ drop-append_le n b s short,
    )

pub stream_part :
    (bs : List Bytes) (p x rest : Bytes)
    → All IsWire bs
    → IsFront p
    → x ++ rest ≡ join bs ++ p
    → Seen x rest bs p
stream_part [] p x rest all front is = record {
  first = [];
  later = [];
  front = x;
  split = refl;
  all_first = tt;
  all_later = tt;
  is_front = IsFront-prefix x rest (rw is front);
  seen = refl;
  to_see = is;
}
stream_part (b ∷ bs) p x rest (h, all) front is =
    let whole : x ++ rest ≡ b ++ (join bs ++ p) = is ∙ append_assoc b (join bs) p in
    elim (Bool-cases (ltb (length x) (length b))) [
      | inl cut ↦
          let less : length x < length b = ground arith in
          record {
            first = [];
            later = b ∷ bs;
            front = x;
            split = refl;
            all_first = tt;
            all_later = (h, all);
            is_front =
                IsFront-cut b x (drop (length x) b) h
                  (prefix_cut x b rest (join bs ++ p) whole (omega arith)).0 less;
            seen = refl;
            to_see = is;
          }
      | inr enough ↦
          let (its, left) = prefix_cut b x (join bs ++ p) rest (sym whole) (ground arith) in
          let next = stream_part bs p (drop (length b) x) rest all front (sym left) in
          record {
            first = b ∷ next.first;
            later = next.later;
            front = next.front;
            split = ap (◌∷◌ b) next.split;
            all_first = (h, next.all_first);
            all_later = next.all_later;
            is_front = next.is_front;
            seen =
                sym its
                ∙ ap (λ (z : Bytes). b ++ z) next.seen
                ∙ sym (append_assoc b (join next.first) next.front);
            to_see = next.to_see;
          }
    ]
