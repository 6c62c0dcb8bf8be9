-- ===== src/Chaos/Sending.antt =====
-- What `send` and `writeChunked` do to a client that takes everything.
use bhttp_1_http_in_binary.Base.{
  ℕ, zero, suc, ◌+◌, ◌≤◌, ◌<◌, ◌≡◌, refl, sym, ap, ◌∙◌, arith, Bool-cases, inl, inr, [], ◌∷◌, ◌++◌,
  append-nil, append_assoc, Bytes, Outcome, ok, length, length-drop, take, drop, take-append-drop,
  ◌==◌,
}
use bhttp_1_http_in_binary.Stream.{Sink, write_once}
use bhttp_1_http_in_binary.Chaos.{Random, Options, Pump, piece_size, write_chunked, send}

-- What math/rand promises.
pub record IsRandom {R : Type 0} (rand : Random R) : Type 0 where
  pub below : (n : ℕ) (r : R) → 0 < n → (rand.intn n r).0 < n
  pub fills : (n : ℕ) (r : R) → length (rand.read n r).0 ≡ n

abbrev pub TakesAll : {R : Type 0} → Pump R → Type 0
TakesAll p = p.out.grants ≡ []

module _ {R : Type 0} (rand : Random R) (o : Options) where
  -- Everything has been written, and the client still takes everything.
  pub record Sent (p : Pump R) (b : Bytes) (r : Outcome (Pump R) (Unit {0})) : Type 0 where
    pub pump : Pump R
    pub result : r ≡ ok tt pump
    pub written : pump.out.written ≡ p.out.written ++ b
    pub open_still : TakesAll pump

  piece_size-positive : (all : ℕ) (r : R) → 0 < all → 0 < (piece_size rand o all r).0
  unfolding piece_size
  piece_size-positive all r h = elim (Bool-cases (o.chunk == 0)) [
    | inl whole ↦ rw whole h
    | inr some_size ↦ rw some_size (omega arith)
  ]

  write_once-all :
      (b : Bytes) (w : Sink)
      → w.grants ≡ []
      → write_once b w ≡ ok tt (record { written = w.written ++ b; grants = [] })
  unfolding write_once
  write_once-all b w h = rw h refl

  write_chunked-Sent :
      (fuel : ℕ) (b : Bytes) (p : Pump R)
      → length b ≤ fuel
      → TakesAll p
      → Sent p b (write_chunked rand o fuel b p)
  unfolding write_chunked
  write_chunked-Sent fuel [] p enough h = record {
    pump = p;
    result = refl;
    written = sym (append-nil p.out.written);
    open_still = h;
  }
  write_chunked-Sent zero (x ∷ b) p enough h = absurd (omega arith)
  write_chunked-Sent (suc fuel) (x ∷ b) p enough h =
      let drawn = piece_size rand o (length (x ∷ b)) p.rng in
      let n = drawn.0 in
      let some_bytes = piece_size-positive (length (x ∷ b)) p.rng (omega arith) in
      let w : Sink = record { written = p.out.written ++ take n (x ∷ b); grants = [] } in
      let q : Pump R = record p { out = w; rng = drawn.1; writes = p.writes + 1 } in
      let later =
        write_chunked-Sent fuel (drop n (x ∷ b)) q
          (omega (arith, some_bytes, length-drop n (x ∷ b))) refl in
      record {
        pump = later.pump;
        result = rw (write_once-all (take n (x ∷ b)) p.out h) later.result;
        written =
            later.written
            ∙ append_assoc p.out.written (take n (x ∷ b)) (drop n (x ∷ b))
            ∙ ap (λ (z : Bytes). p.out.written ++ z) (take-append-drop n (x ∷ b));
        open_still = later.open_still;
      }

  pub send-Sent : (b : Bytes) (p : Pump R) → TakesAll p → Sent p b (send rand o b p)
  unfolding send
  send-Sent b p h = write_chunked-Sent (length b) b p (omega arith) h
