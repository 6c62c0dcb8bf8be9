-- ===== src/Frame/Reader/Equations.antt =====
-- The reader without its fuel and without the pieces of its input.
use bhttp_1_http_in_binary.Base.{
  ℕ, zero, suc, ◌+◌, ◌≤◌, ◌<◌, ◌≡◌, sym, ap, arith, ◌⊎◌, inl, inr, Bytes, ◌++◌, [], ok, err, Exec,
  length, take, drop, join, leb, Bool-cases, length-append, length-take, take-append, drop-append,
  take-append-drop,
}
use bhttp_1_http_in_binary.Stream.{Source, short_read, chunked}
use bhttp_1_http_in_binary.Stream.Flat.{Flat, flat, flat_fill, flat_discard}
use bhttp_1_http_in_binary.Stream.Simulation.{
  Simulates, simulation, Simulates-if, Simulates-fail, Simulates-bind, Simulates-map_error,
  read_full-Simulates, copy_n-Simulates,
}
use bhttp_1_http_in_binary.Frame.{Frame, header_size}
use bhttp_1_http_in_binary.Frame.Reader.{
  declared, header_error, accept_frame, after_header, read_loop, read, read_flat,
}

accept_frame-Simulates :
    (hdr payload : Bytes)
    → Simulates (accept_frame chunked hdr payload) (accept_frame flat hdr payload)
unfolding accept_frame
accept_frame-Simulates hdr payload = search simulation

after_header-Simulates :
    (m : Exec Source Frame) (m' : Exec Flat Frame) (hdr : Bytes)
    → Simulates m m'
    → Simulates (after_header chunked m hdr) (after_header flat m' hdr)
unfolding after_header
after_header-Simulates m m' hdr h = Simulates-if _ _ _ _ _ (Simulates-fail _) (
    Simulates-if _ _ _ _ _
      (Simulates-bind _ _ _ _ (Simulates-map_error _ _ _ (copy_n-Simulates _)) (λ _. h))
      (Simulates-bind _ _ _ _ (Simulates-map_error _ _ _ (read_full-Simulates _))
        (accept_frame-Simulates hdr)))

read_loop-Simulates : (fuel : ℕ) → Simulates (read_loop chunked fuel) (read_loop flat fuel)
unfolding read_loop
read_loop-Simulates zero = search simulation
read_loop-Simulates (suc fuel) =
    Simulates-bind _ _ _ _ (Simulates-map_error _ _ _ (read_full-Simulates _))
      (λ hdr. after_header-Simulates _ _ hdr (read_loop-Simulates fuel))

pub read-Simulates : Simulates read read_flat
unfolding read read_flat
read-Simulates = record { at = λ s. (read_loop-Simulates (suc (length (join s.chunks)))).at s }

abbrev pub at_bytes : Flat → Bytes → Flat
at_bytes t bs = record t { bytes = bs }

-- A full read takes its bytes off the front, or reports the short input.
pub read_full-flat :
    (n : ℕ) (xs : Bytes) (t : Flat)
    → length xs ≡ n
    → flat.read_full n (at_bytes t (xs ++ t.bytes)) ≡ ok xs t
unfolding flat
read_full-flat n xs t h =
    unfold flat_fill in
    ground (arith, length-append xs t.bytes, take-append n xs t.bytes h, drop-append n xs t.bytes h)

pub copy_n-flat :
    (n : ℕ) (xs : Bytes) (t : Flat)
    → length xs ≡ n
    → flat.copy_n n (at_bytes t (xs ++ t.bytes)) ≡ ok tt t
unfolding flat
copy_n-flat n xs t h =
    unfold flat_discard in ground (arith, length-append xs t.bytes, drop-append n xs t.bytes h)

pub read_full-flat_short :
    (n : ℕ) (t : Flat)
    → length t.bytes < n
    → flat.read_full n t ≡ err (short_read t.bytes t.fault) (at_bytes t [])
unfolding flat flat_fill
read_full-flat_short n t h = ground arith

pub copy_n-flat_short :
    (n : ℕ) (t : Flat) → length t.bytes < n → flat.copy_n n t ≡ err t.fault (at_bytes t [])
unfolding flat flat_discard
copy_n-flat_short n t h = ground arith

-- The input is shorter than `n`, or splits behind its first `n` bytes.
pub split_at :
    (n : ℕ) (t : Flat)
    → (length t.bytes < n)
      ⊎ ((xs : Bytes) × (u : Flat) × (length xs ≡ n) × (t ≡ at_bytes u (xs ++ u.bytes)))
split_at n t = elim (Bool-cases (leb n (length t.bytes))) [
  | inl e ↦ inr (
    take n t.bytes,
    at_bytes t (drop n t.bytes),
    ground (arith, length-take n t.bytes),
    ap (at_bytes t) (sym (take-append-drop n t.bytes)),
  )
  | inr e ↦ inl (ground arith)
]

pub split_length :
    (xs : Bytes) (t u : Flat)
    → t ≡ at_bytes u (xs ++ u.bytes)
    → length t.bytes ≡ length xs + length u.bytes
split_length xs t u e = rw e (length-append xs u.bytes)

module _ (hdr : Bytes) where
  -- `again` is only asked about what is left of the input.
  after_header_again :
      (m m' : Exec Flat Frame) (t : Flat)
      → ((u : Flat) → length u.bytes ≤ length t.bytes → m u ≡ m' u)
      → after_header flat m hdr t ≡ after_header flat m' hdr t
  unfolding after_header
  after_header_again m m' t h = elim (split_at (declared hdr) t) [
    | inl short ↦ ground (arith, copy_n-flat_short (declared hdr) t short)
    | inr (xs, u, len, e) ↦
        rw e (ground (arith, copy_n-flat (declared hdr) xs u len, h u, split_length xs t u e))
  ]

read_loop_fuel :
    (f g : ℕ) (t : Flat)
    → length t.bytes < f
    → length t.bytes < g
    → read_loop flat f t ≡ read_loop flat g t
unfolding read_loop
read_loop_fuel zero g t p q = absurd (omega arith)
read_loop_fuel (suc f) zero t p q = absurd (omega arith)
read_loop_fuel (suc f) (suc g) t p q = elim (split_at header_size t) [
  | inl short ↦ rw (read_full-flat_short header_size t short)
  | inr (xs, u, len, e) ↦
      rw (e, read_full-flat header_size xs u len)
        (after_header_again xs _ _ u (λ v h.
          read_loop_fuel f g v (omega (arith, split_length xs t u e))
            (omega (arith, split_length xs t u e))))
]

-- Fewer than twelve bytes are no header.
pub read_flat-short :
    (t : Flat)
    → length t.bytes < header_size
    → read_flat t ≡ err (header_error (short_read t.bytes t.fault)) (at_bytes t [])
unfolding read_flat
read_flat-short t h = rw (read_full-flat_short header_size t h)

-- One round of the loop, with the reader itself for `continue`.
pub read_flat-header :
    (hdr : Bytes) (u : Flat)
    → length hdr ≡ header_size
    → read_flat (at_bytes u (hdr ++ u.bytes)) ≡ after_header flat read_flat hdr u
read_flat-header hdr u h =
    unfold read_flat read_loop in
    rw (read_full-flat header_size hdr u h) (
      after_header_again hdr _ _ u (λ v le.
        read_loop_fuel (length (hdr ++ u.bytes)) (suc (length v.bytes)) v
          (omega (arith, length-append hdr u.bytes)) (omega arith)))
