-- ===== src/Stream/Simulation.antt =====
-- Code over an io.Reader that treats the pieces and the plain bytes alike, one rule for each way
-- to build such code.
use bhttp_1_http_in_binary.Base.{
  take-append, drop-append, leb, ◌≤◌, ◌<◌, arith, length, length-append, take, drop, take-append_le,
  drop-append_le, join, Bytes, ap, ◌++◌, ℕ, [], Bool, true, false, ◌≡◌, refl, ◌∙◌, Error, Outcome,
  ok, err, Exec, pure, fail, map_error, mend, after, ◌>>=◌, if◌then◌else◌,
}
use bhttp_1_http_in_binary.Stream.{Source, chunked, short_read}
use bhttp_1_http_in_binary.Stream.Flat.{
  Flat, flatten, view, flat, fill-flat_fill, discard-flat_discard,
}

-- `m` on any pieces does what `m'` does on the bytes that they join to.
pub record Simulates {ℓ} {A : Type ℓ} (m : Exec Source A) (m' : Exec Flat A) : Type ℓ where
  pub at : (s : Source) → view (m s) ≡ m' (flatten s)

module _ {ℓ} {A : Type ℓ} where
  pub Simulates-pure : (a : A) → Simulates (pure a) (pure a)
  Simulates-pure a = record { at = λ s. refl }

  pub Simulates-fail : (e : Error) → Simulates {A = A} (fail e) (fail e)
  Simulates-fail e = record { at = λ s. refl }

  pub Simulates-if :
      (b : Bool) (m n : Exec Source A) (m' n' : Exec Flat A)
      → Simulates m m'
      → Simulates n n'
      → Simulates (if b then m else n) (if b then m' else n')
  Simulates-if true m n m' n' h k = h
  Simulates-if false m n m' n' h k = k

  view-mend : (f : Error → Error) (o : Outcome Source A) → view (mend f o) ≡ mend f (view o)
  view-mend f (ok a s) = refl
  view-mend f (err e s) = refl

  pub Simulates-map_error :
      (f : Error → Error) (m : Exec Source A) (m' : Exec Flat A)
      → Simulates m m'
      → Simulates (map_error f m) (map_error f m')
  Simulates-map_error f m m' h = record { at = λ s. rw (← h.at s) (view-mend f (m s)) }

module _ {ℓ κ} {A : Type ℓ} {B : Type κ} where
  view-after :
      (f : A → Exec Source B) (f' : A → Exec Flat B)
      → ((a : A) → Simulates (f a) (f' a))
      → (o : Outcome Source A) → view (after o f) ≡ after (view o) f'
  view-after f f' k (ok a s) = (k a).at s
  view-after f f' k (err e s) = refl

  pub Simulates-bind :
      (m : Exec Source A) (f : A → Exec Source B) (m' : Exec Flat A) (f' : A → Exec Flat B)
      → Simulates m m'
      → ((a : A) → Simulates (f a) (f' a))
      → Simulates (m >>= f) (m' >>= f')
  Simulates-bind m f m' f' h k = record { at = λ s. rw (← h.at s) (view-after f f' k (m s)) }

pub read_full-Simulates : (n : ℕ) → Simulates (chunked.read_full n) (flat.read_full n)
unfolding chunked flat
read_full-Simulates n = record { at = λ s. fill-flat_fill s.chunks n [] s.fault }

pub copy_n-Simulates : (n : ℕ) → Simulates (chunked.copy_n n) (flat.copy_n n)
unfolding chunked flat
copy_n-Simulates n = record { at = λ s. discard-flat_discard s.chunks n s.fault }

pub ruleset simulation = (
  Simulates-pure, Simulates-fail, Simulates-if, Simulates-map_error, Simulates-bind,
  read_full-Simulates, copy_n-Simulates,
)

module _ {ℓ} {A : Type ℓ} where
  pub view-eq-ok :
      (o : Outcome Source A) {a : A} {t : Flat}
      → view o ≡ ok a t
      → (u : Source) × (o ≡ ok a u) × (flatten u ≡ t)
  view-eq-ok (ok b u) p = (u, cc, cc)
  view-eq-ok (err e u) p = cc

  pub view-eq-err :
      (o : Outcome Source A) {e : Error} {t : Flat}
      → view o ≡ err e t
      → (u : Source) × (o ≡ err e u) × (flatten u ≡ t)
  view-eq-err (ok b u) p = cc
  view-eq-err (err e u) p = (u, cc, cc)

  -- What the code does on the bytes it does on the pieces, up to the cut of what is left.
  pub Simulates-ok :
      {m : Exec Source A} {m' : Exec Flat A} (s : Source) {a : A} {t : Flat}
      → Simulates m m'
      → m' (flatten s) ≡ ok a t
      → (u : Source) × (m s ≡ ok a u) × (flatten u ≡ t)
  Simulates-ok {m} s h e = view-eq-ok (m s) (h.at s ∙ e)

  pub Simulates-err :
      {m : Exec Source A} {m' : Exec Flat A} (s : Source) {e : Error} {t : Flat}
      → Simulates m m'
      → m' (flatten s) ≡ err e t
      → (u : Source) × (m s ≡ err e u) × (flatten u ≡ t)
  Simulates-err {m} s h e = view-eq-err (m s) (h.at s ∙ e)

-- io.ReadFull on a stream with enough left.
pub read_full-enough :
    (m : ℕ) (s : Source) (content extra : Bytes)
    → join s.chunks ≡ content ++ extra
    → m ≤ length content
    → (u : Source) × (chunked.read_full m s ≡ ok (take m content) u)
      × (join u.chunks ≡ drop m content ++ extra)
read_full-enough m s content extra bytes enough =
    let t : Flat = record { bytes = drop m content ++ extra; fault = s.fault } in
    let (u, r, left) = Simulates-ok s {a = take m content} {t = t} (read_full-Simulates m) (
      unfold flat in
      rw (bytes, take-append_le m content extra enough, drop-append_le m content extra enough)
        (ground (arith, length-append content extra))) in
    (u, r, ap (λ (x : Flat). x.bytes) left)

-- io.ReadFull on a stream that ends too early.
pub read_full-short :
    (m : ℕ) (s : Source) (bs : Bytes)
    → join s.chunks ≡ bs
    → length bs < m
    → (e : Error) × (u : Source) × (chunked.read_full m s ≡ err e u)
read_full-short m s bs is short =
    let big : leb m (length bs) ≡ false = ground arith in
    let (u, r, left) =
      Simulates-err s {e = short_read bs s.fault} {t = record { bytes = []; fault = s.fault }}
        (read_full-Simulates m) (unfold flat in rw is (rw big refl)) in
    (short_read bs s.fault, u, r)

-- io.ReadFull at the end of a stream.
pub read_full-end :
    (m : ℕ) (s : Source)
    → join s.chunks ≡ []
    → 0 < m
    → (e : Error) × (u : Source) × (chunked.read_full m s ≡ err e u)
read_full-end m s none_left some_wanted = read_full-short m s [] none_left some_wanted

-- io.ReadFull takes what it asks for off the front.
pub read_full-front :
    (m : ℕ) (s : Source) (xs rest : Bytes)
    → join s.chunks ≡ xs ++ rest
    → length xs ≡ m
    → (u : Source) × (chunked.read_full m s ≡ ok xs u) × (join u.chunks ≡ rest)
read_full-front m s xs rest is size =
    let t : Flat = record { bytes = rest; fault = s.fault } in
    let enough : leb m (length (xs ++ rest)) ≡ true = ground (arith, length-append xs rest) in
    let (u, r, left) = Simulates-ok s {a = xs} {t = t} (read_full-Simulates m) (
      unfold flat in
      rw is (rw enough (rw (take-append m xs rest size, drop-append m xs rest size) refl))) in
    (u, r, ap (λ (x : Flat). x.bytes) left)
