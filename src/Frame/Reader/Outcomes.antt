-- ===== src/Frame/Reader/Outcomes.antt =====
-- The reader against the table of the wire format: what the bytes to come must look like for each
-- of its results.
use bhttp_1_http_in_binary.Base.{
  ℕ, zero, suc, ◌≤◌, ◌<◌, ◌&&◌, ◌≡◌, refl, arith, true, false, inl, inr, Bytes, [], ◌∷◌, ◌++◌,
  Error, oversize, stream_zero, Outcome, ok, err, length, ltb, ltb→lt, ◌==◌, Bool-cases,
}
use bhttp_1_http_in_binary.Stream.{short_read}
use bhttp_1_http_in_binary.Stream.Flat.{Flat, flat}
use bhttp_1_http_in_binary.Frame.{Frame, header_size, max_payload, is_known, needs_stream}
use bhttp_1_http_in_binary.Frame.Reader.{
  declared, header_type, header_flags, header_stream, header_error, truncated_or, accept_frame,
  after_header, read_flat,
}
use bhttp_1_http_in_binary.Frame.Reader.Equations.{
  at_bytes, split_length, read_full-flat, copy_n-flat, read_full-flat_short, copy_n-flat_short,
  split_at, read_flat-short, read_flat-header,
}

abbrev pub frame_of : Bytes → Bytes → Frame
frame_of hdr payload = record {
  typ = header_type hdr;
  flags = header_flags hdr;
  stream_id = header_stream hdr;
  payload = payload;
}

-- `NextFrame fault bs o`: on the bytes `bs`, followed by `fault`, reading the next frame has the
-- result `o`.
pub data NextFrame (fault : Error) : Bytes → Outcome Flat Frame → Type 0 where
  no_header :
      {bs : Bytes} {o : Outcome Flat Frame}
      → length bs < header_size
      → o ≡ err (header_error (short_read bs fault)) (record { bytes = []; fault = fault })
      → NextFrame fault bs o
  too_large :
      {bs : Bytes} {o : Outcome Flat Frame} (hdr rest : Bytes)
      → length hdr ≡ header_size
      → bs ≡ hdr ++ rest
      → max_payload < declared hdr
      → o ≡ err (oversize (header_type hdr) (declared hdr)) (record { bytes = rest; fault = fault })
      → NextFrame fault bs o
  cut_payload :
      {bs : Bytes} {o : Outcome Flat Frame} (hdr rest : Bytes)
      → length hdr ≡ header_size
      → bs ≡ hdr ++ rest
      → declared hdr ≤ max_payload
      → length rest < declared hdr
      → o ≡ err (truncated_or fault) (record { bytes = []; fault = fault })
      → NextFrame fault bs o
  skips :
      {bs : Bytes} {o : Outcome Flat Frame} (hdr payload rest : Bytes)
      → length hdr ≡ header_size
      → bs ≡ hdr ++ (payload ++ rest)
      → length payload ≡ declared hdr
      → declared hdr ≤ max_payload
      → is_known (header_type hdr) ≡ false
      → NextFrame fault rest o
      → NextFrame fault bs o
  zero_stream :
      {bs : Bytes} {o : Outcome Flat Frame} (hdr payload rest : Bytes)
      → length hdr ≡ header_size
      → bs ≡ hdr ++ (payload ++ rest)
      → length payload ≡ declared hdr
      → declared hdr ≤ max_payload
      → needs_stream (header_type hdr) ≡ true
      → header_stream hdr ≡ 0
      → o ≡ err stream_zero (record { bytes = rest; fault = fault })
      → NextFrame fault bs o
  frame :
      {bs : Bytes} {o : Outcome Flat Frame} (hdr payload rest : Bytes)
      → length hdr ≡ header_size
      → bs ≡ hdr ++ (payload ++ rest)
      → length payload ≡ declared hdr
      → declared hdr ≤ max_payload
      → is_known (header_type hdr) ≡ true
      → (needs_stream (header_type hdr) ≡ true → 0 < header_stream hdr)
      → o ≡ ok (frame_of hdr payload) (record { bytes = rest; fault = fault })
      → NextFrame fault bs o

-- read_full's error on a payload that is cut short, also when no byte of it came.
truncated_or-short_read : (bs : Bytes) (e : Error) → truncated_or (short_read bs e) ≡ truncated_or e
unfolding truncated_or short_read
truncated_or-short_read [] e = refl
truncated_or-short_read (b ∷ bs) e = ground arith

module _ (hdr : Bytes) where
  -- The branches of a round, each with the input in the shape that it finds.
  pub round_too_large :
      (u : Flat)
      → max_payload < declared hdr
      → after_header flat read_flat hdr u ≡ err (oversize (header_type hdr) (declared hdr)) u
  unfolding after_header
  round_too_large u big = ground arith

  round_cut :
      (u : Flat)
      → declared hdr ≤ max_payload
      → length u.bytes < declared hdr
      → after_header flat read_flat hdr u ≡ err (truncated_or u.fault) (at_bytes u [])
  unfolding after_header
  round_cut u fits short = ground (
    arith,
    copy_n-flat_short (declared hdr) u short,
    read_full-flat_short (declared hdr) u short,
    truncated_or-short_read u.bytes u.fault,
  )

  module _ (payload : Bytes) (u : Flat) (whole : length payload ≡ declared hdr) where
    pub round_skips :
        declared hdr ≤ max_payload
        → is_known (header_type hdr) ≡ false
        → after_header flat read_flat hdr (at_bytes u (payload ++ u.bytes)) ≡ read_flat u
    unfolding after_header
    round_skips fits unknown = ground (arith, copy_n-flat (declared hdr) payload u whole)

    pub round_accepts :
        declared hdr ≤ max_payload
        → is_known (header_type hdr) ≡ true
        → after_header flat read_flat hdr (at_bytes u (payload ++ u.bytes))
          ≡ accept_frame flat hdr payload u
    unfolding after_header
    round_accepts fits known = ground (arith, read_full-flat (declared hdr) payload u whole)

-- What is read of the header's type decides between the two kinds of frame.
round-NextFrame :
    (hdr payload : Bytes) (u : Flat)
    → length hdr ≡ header_size
    → length payload ≡ declared hdr
    → declared hdr ≤ max_payload
    → is_known (header_type hdr) ≡ true
    → NextFrame u.fault (hdr ++ (payload ++ u.bytes)) (accept_frame flat hdr payload u)
unfolding accept_frame
round-NextFrame hdr payload u len whole fits known =
    elim (Bool-cases (needs_stream (header_type hdr) && header_stream hdr == 0)) [
      | inl bad ↦
          zero_stream hdr payload u.bytes len refl whole fits (ground arith) (ground arith) (rw bad)
      | inr good ↦
          frame hdr payload u.bytes len refl whole fits known (λ needs. ground arith) (rw good)
    ]

after_header-NextFrame :
    (hdr : Bytes) (u : Flat)
    → length hdr ≡ header_size
    → ((v : Flat) → length v.bytes ≤ length u.bytes → NextFrame v.fault v.bytes (read_flat v))
    → NextFrame u.fault (hdr ++ u.bytes) (after_header flat read_flat hdr u)
after_header-NextFrame hdr u len ih = elim (Bool-cases (ltb max_payload (declared hdr))) [
  | inl big ↦
      too_large hdr u.bytes len refl (ltb→lt _ _ big)
        (round_too_large hdr u (ltb→lt max_payload (declared hdr) big))
  | inr fits ↦ elim (split_at (declared hdr) u) [
    | inl short ↦
        cut_payload hdr u.bytes len refl (ground arith) short (round_cut hdr u (ground arith) short)
    | inr (payload, v, whole, e) ↦ rw e (elim (Bool-cases (is_known (header_type hdr))) [
      | inl known ↦
          rw (round_accepts hdr payload v whole (ground arith) known)
            (round-NextFrame hdr payload v len whole (ground arith) known)
      | inr unknown ↦ rw (round_skips hdr payload v whole (ground arith) unknown) (
          skips hdr payload v.bytes len refl whole (ground arith) unknown
            (ih v (omega (arith, split_length payload u v e))))
    ])
  ]
]

read_flat-NextFrame_below :
    (n : ℕ) (t : Flat) → length t.bytes < n → NextFrame t.fault t.bytes (read_flat t)
read_flat-NextFrame_below zero t h = absurd (omega arith)
read_flat-NextFrame_below (suc n) t h = elim (split_at header_size t) [
  | inl short ↦ no_header short (read_flat-short t short)
  | inr (hdr, u, len, e) ↦
      rw (e, read_flat-header hdr u len)
        (after_header-NextFrame hdr u len
          (λ v le. read_flat-NextFrame_below n v (omega (arith, split_length hdr t u e))))
]

-- On every input the reader's result is the one that the wire format's table gives for it.
pub read_flat-NextFrame : (t : Flat) → NextFrame t.fault t.bytes (read_flat t)
read_flat-NextFrame t = read_flat-NextFrame_below (suc (length t.bytes)) t (omega arith)
