-- ===== src/Stream/Flat.antt =====
-- The reader with the pieces forgotten: the bytes still to come, and the fault behind them.
use bhttp_1_http_in_binary.Base.{
  ℕ, zero, suc, ◌-◌, ◌≤◌, ◌≡◌, refl, arith, Bytes, List, [], ◌∷◌, ◌++◌, Error, Outcome, ok, err,
  map_state, leb, if◌then◌else◌, length, take, drop, join, append-nil, append_assoc, length-append,
  take-append_ge, drop-append_ge, take-append_le, drop-append_le, Bool-cases, inl, inr, leb→le,
  true, false, le→leb,
}
use bhttp_1_http_in_binary.Stream.{Source, ByteReader, short_read, fill, discard}

pub record Flat : Type 0 where
  pub bytes : Bytes
  pub fault : Error

abbrev pub flatten : Source → Flat
flatten s = record { bytes = join s.chunks; fault = s.fault }

abbrev pub view {ℓ} : {A : Type ℓ} → Outcome Source A → Outcome Flat A
view = map_state flatten

unfoldable pub flat_fill : ℕ → Bytes → Error → Bytes → Outcome Flat Bytes
flat_fill need got fault bs =
    if leb need (length bs)
    then ok (got ++ take need bs) (record { bytes = drop need bs; fault = fault })
    else err (short_read (got ++ bs) fault) (record { bytes = []; fault = fault })

unfoldable pub flat_discard : ℕ → Error → Bytes → Outcome Flat (Unit {0})
flat_discard need fault bs =
    if leb need (length bs)
    then ok tt (record { bytes = drop need bs; fault = fault })
    else err fault (record { bytes = []; fault = fault })

unfoldable pub flat : ByteReader Flat
unfolding flat_fill flat_discard
flat = record {
  read_full = λ n s. flat_fill n [] s.fault s.bytes;
  copy_n = λ n s. flat_discard n s.fault s.bytes;
}

-- A piece that does not hold all that is missing is taken whole.
flat_fill-append :
    (need : ℕ) (got : Bytes) (fault : Error) (c bs : Bytes)
    → length c ≤ need
    → flat_fill (need - length c) (got ++ c) fault bs ≡ flat_fill need got fault (c ++ bs)
unfolding flat_fill
flat_fill-append need got fault c bs h = elim (Bool-cases (leb need (length (c ++ bs)))) [
  | inl e ↦
      let e' : leb (need - length c) (length bs) ≡ true =
        le→leb _ _ (omega (arith, leb→le _ _ e, length-append c bs)) in
      rw (e, e', take-append_ge need c bs h, drop-append_ge need c bs h, append_assoc)
  | inr e ↦
      let e' : leb (need - length c) (length bs) ≡ false = ground (arith, length-append c bs) in
      rw (e, e', append_assoc)
]

flat_discard-append :
    (need : ℕ) (fault : Error) (c bs : Bytes)
    → length c ≤ need
    → flat_discard (need - length c) fault bs ≡ flat_discard need fault (c ++ bs)
unfolding flat_discard
flat_discard-append need fault c bs h =
    ground (arith, length-append c bs, drop-append_ge need c bs h)

-- io.ReadFull sees the bytes and not the pieces.
pub fill-flat_fill :
    (cs : List Bytes) (need : ℕ) (got : Bytes) (fault : Error)
    → view (fill need got fault cs) ≡ flat_fill need got fault (join cs)
unfolding fill
fill-flat_fill [] zero got fault = unfold flat_fill in rw append-nil
fill-flat_fill [] (suc need) got fault = unfold flat_fill in rw append-nil (ground arith)
fill-flat_fill (c ∷ cs) zero got fault = unfold flat_fill in rw append-nil (ground arith)
fill-flat_fill (c ∷ cs) (suc need) got fault = elim (Bool-cases (leb (length c) (suc need))) [
  | inl e ↦
      rw (e, fill-flat_fill cs (suc need - length c) (got ++ c) fault)
        (flat_fill-append (suc need) got fault c (join cs) (leb→le _ _ e))
  | inr e ↦
      unfold flat_fill in
      ground (
        arith,
        length-append c (join cs),
        take-append_le (suc need) c (join cs),
        drop-append_le (suc need) c (join cs),
      )
]

pub discard-flat_discard :
    (cs : List Bytes) (need : ℕ) (fault : Error)
    → view (discard need fault cs) ≡ flat_discard need fault (join cs)
unfolding discard
discard-flat_discard [] zero fault = unfold flat_discard in refl
discard-flat_discard [] (suc n) fault = unfold flat_discard in ground arith
discard-flat_discard (c ∷ cs) zero fault = unfold flat_discard in ground arith
discard-flat_discard (c ∷ cs) (suc n) fault = elim (Bool-cases (leb (length c) (suc n))) [
  | inl e ↦
      rw (e, discard-flat_discard cs (suc n - length c) fault)
        (flat_discard-append (suc n) fault c (join cs) (leb→le _ _ e))
  | inr e ↦
      unfold flat_discard in
      ground (arith, length-append c (join cs), drop-append_le (suc n) c (join cs))
]
