-- ===== src/Chaos.antt =====
-- internal/chaos/chaos.go: a relay that cuts a server's bytes into small pieces and puts frames of
-- unknown types between them. The source of random numbers, math/rand, is a parameter; the pauses
-- are left out.
pub mod Sending
pub mod Written
pub mod Heard
pub mod Relay
use bhttp_1_http_in_binary.Base.{
  ℕ, zero, suc, ◌+◌, ◌-◌, Bool, true, false, ◌&&◌, List, [], ◌∷◌, ◌++◌, Bytes, put_u16, put_u32,
  be_u32, Exec, Outcome, ok, err, pure, fail, out_of_fuel, fold_outcome, ltb, leb, ◌==◌,
  if◌then◌else◌, length, take, drop, get_or, join, replicate, min, not,
}
use bhttp_1_http_in_binary.Stream.{Source, Sink, chunked, write_once}
use bhttp_1_http_in_binary.Frame.{header_size, max_payload, flag_end_stream, has_flag}

-- Intn and Read of rand.Rand.
pub record Random (R : Type 0) : Type 0 where
  pub intn : ℕ → R → ℕ × R
  pub read : ℕ → R → Bytes × R

pub record Options : Type 0 where
  pub chunk : ℕ
  pub noise : Bool

pub record Pump (R : Type 0) : Type 0 where
  pub out : Sink
  pub rng : R
  pub frames : ℕ
  pub injected : ℕ
  pub writes : ℕ

-- Values that no version of the protocol has assigned yet.
abbrev pub unknown_types : Bytes
unknown_types = 0x05 ∷ 0x06 ∷ 0x0a ∷ 0x7e ∷ 0x80 ∷ 0xfe ∷ 0xff ∷ []

-- Enough rounds for all pieces.
abbrev pub raw_rounds : List Bytes → ℕ
raw_rounds cs = length cs + length (join cs)

-- A payload of which only the front has come, in a buffer of the size that was announced.
abbrev pub padded : ℕ → Bytes → Bytes
padded n got = got ++ replicate (n - length got) 0

module _ {R : Type 0} (rand : Random R) (o : Options) where
  -- The size of the next piece of `b`.
  unfoldable pub piece_size : ℕ → R → ℕ × R
  piece_size all r =
      let drawn = rand.intn o.chunk r in
      if o.chunk == 0 then (all, r) else (min all (1 + drawn.0), drawn.1)

  -- The loop of `writeChunked`. A round writes a byte at least, so the length is fuel enough.
  unfoldable pub write_chunked : ℕ → Bytes → Exec (Pump R) (Unit {0})
  unfolding piece_size
  write_chunked fuel [] p = ok tt p
  write_chunked zero (x ∷ b) p = err out_of_fuel p
  write_chunked (suc fuel) (x ∷ b) p =
      let drawn = piece_size (length (x ∷ b)) p.rng in
      fold_outcome (write_once (take drawn.0 (x ∷ b)) p.out)
        (λ _ w.
          write_chunked fuel (drop drawn.0 (x ∷ b))
            (record p { out = w; rng = drawn.1; writes = p.writes + 1 }))
        (λ e w. err e (record p { out = w; rng = drawn.1 }))

  unfoldable pub send : Bytes → Exec (Pump R) (Unit {0})
  unfolding write_chunked
  send b = write_chunked (length b) b

  -- The frame that `inject` makes up, as its header and its payload.
  unfoldable pub noise_frame : R → (Bytes × Bytes) × R
  noise_frame r =
      let (size, r1) = rand.intn 65 r in
      let (payload, r2) = rand.read size r1 in
      let (typ, r3) = rand.intn (length unknown_types) r2 in
      let (flags, r4) = rand.intn 256 r3 in
      let (reserved, r5) = rand.intn 65536 r4 in
      let (stream, r6) = rand.intn 3 r5 in
      (
        (
          put_u32 (length payload)
              ++ (get_or unknown_types typ 0 ∷ flags ∷ [])
              ++ put_u16 reserved
              ++ put_u32 stream,
          payload,
        ),
        r6,
      )

  unfoldable pub inject : Exec (Pump R) (Unit {0})
  unfolding noise_frame send
  inject p =
      let made = noise_frame p.rng in
      send (made.0.0 ++ made.0.1) (record p { rng = made.1; injected = p.injected + 1 })

  -- `inject` where there is noise, and the rest of the round.
  unfoldable pub inject_if : Bool → (Pump R → Pump R) → Pump R → Pump R
  unfolding inject
  inject_if wanted rest p =
      if wanted then fold_outcome (inject p) (λ _ q. rest q) (λ e q. q) else rest p

  -- The pieces that `copyRaw` passes on as they come: one Read takes 4096 bytes at most.
  unfoldable pub copy_raw : ℕ → List Bytes → Pump R → Pump R
  copy_raw zero cs p = p
  copy_raw (suc fuel) [] p = p
  copy_raw (suc fuel) (c ∷ cs) p =
      let rest = if leb (length c) 4096 then cs else drop 4096 c ∷ cs in
      fold_outcome (send (take 4096 c) p) (λ _ q. copy_raw fuel rest q) (λ e q. q)

  -- A round of `run` with a whole frame.
  unfoldable pub relay_frame : (Pump R → Pump R) → Bytes → Bytes → Pump R → Pump R
  unfolding inject_if
  relay_frame again hdr body p =
      inject_if o.noise
        (λ q.
          fold_outcome (send (hdr ++ body) (record q { frames = q.frames + 1 }))
            (λ _ s. inject_if (o.noise && has_flag (get_or hdr 5 0) flag_end_stream) again s)
            (λ e s. s))
        p

  -- `run`. A round reads twelve bytes, or is the last.
  unfoldable pub run_loop : ℕ → Source → Pump R → Pump R
  unfolding relay_frame copy_raw
  run_loop zero server p = p
  run_loop (suc fuel) server p =
      fold_outcome (chunked.read_full header_size server)
        (λ hdr s.
          if ltb max_payload (be_u32 hdr)
          then fold_outcome (send hdr p) (λ _ q. copy_raw (raw_rounds s.chunks) s.chunks q)
              (λ e q. q)
          else fold_outcome (chunked.read_full (be_u32 hdr) s)
              (λ body t. relay_frame (run_loop fuel t) hdr body p)
              (λ e t.
                fold_outcome (send (hdr ++ padded (be_u32 hdr) (join s.chunks)) p) (λ _ q. q)
                  (λ x q. q)))
        (λ e s. p)

  unfoldable pub run : Source → Pump R → Pump R
  unfolding run_loop
  run server p = run_loop (suc (length (join server.chunks))) server p
