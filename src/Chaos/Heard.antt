-- ===== src/Chaos/Heard.antt =====
-- What a reader of frames hears behind the relay.
use bhttp_1_http_in_binary.Base.{
  ℕ, zero, suc, ◌≤◌, ◌≡◌, refl, sym, ap, ◌∙◌, arith, true, false, Bool-cases, inl, inr, List, [],
  ◌∷◌, ◌++◌, append_assoc, Bytes, be_u32, ok, err, Error, out_of_fuel, stream_zero, Outcome-cases,
  fold_outcome, length, length-take, length-drop, take, drop, take-append-drop, join, All, ◌==◌,
  ◌&&◌, append-nil,
}
use bhttp_1_http_in_binary.Stream.{Source}
use bhttp_1_http_in_binary.Stream.Flat.{Flat, flat, flatten, view}
use bhttp_1_http_in_binary.Stream.Simulation.{view-eq-ok, view-eq-err, Simulates-ok, Simulates-err}
use bhttp_1_http_in_binary.Frame.{Frame, header_size, max_payload, is_known, needs_stream}
use bhttp_1_http_in_binary.Frame.Reader.{
  read, read_flat, declared, header_type, header_stream, accept_frame,
}
use bhttp_1_http_in_binary.Frame.Reader.Equations.{at_bytes, read-Simulates, read_flat-header}
use bhttp_1_http_in_binary.Frame.Reader.Outcomes.{round_accepts, round_skips, frame_of}
use bhttp_1_http_in_binary.Frame.RoundTrip.{read_pieces}
use bhttp_1_http_in_binary.Wire.Fronts.{IsWire, be_u32-append}

-- The frames that Read gives one after the other, and the error that ends them.
unfoldable pub read_all : ℕ → Source → List Frame × Error
read_all zero s = ([], out_of_fuel)
read_all (suc n) s =
    fold_outcome (read s) (λ f t. let later = read_all n t in (f ∷ later.0, later.1))
      (λ e t. ([], e))

-- A frame that a reader skips.
pub record IsNoise (b : Bytes) : Type 0 where
  pub hdr : Bytes
  pub payload : Bytes
  pub split : b ≡ hdr ++ payload
  pub size : length hdr ≡ header_size
  pub whole : length payload ≡ declared hdr
  pub fits : declared hdr ≤ max_payload
  pub unknown : is_known (header_type hdr) ≡ false

-- The frames in their order, with noise between them.
pub data Woven : List Bytes → Bytes → Type 0 where
  at_end : Woven [] []
  a_frame :
      {bs : List Bytes} {ws : Bytes} (b ws' : Bytes)
      → Woven bs ws'
      → ws ≡ b ++ ws'
      → Woven (b ∷ bs) ws
  some_noise :
      {bs : List Bytes} {ws : Bytes} (b ws' : Bytes)
      → IsNoise b
      → Woven bs ws'
      → ws ≡ b ++ ws'
      → Woven bs ws

-- What one Read does with the bytes of a frame in front.
data Meets (b : Bytes) : Type 0 where
  gives : (f : Frame) → ((t : Flat) → read_flat (at_bytes t (b ++ t.bytes)) ≡ ok f t) → Meets b
  stops : (e : Error) → ((t : Flat) → read_flat (at_bytes t (b ++ t.bytes)) ≡ err e t) → Meets b
  skips : ((t : Flat) → read_flat (at_bytes t (b ++ t.bytes)) ≡ read_flat t) → Meets b

module _ (hdr payload : Bytes) (size : length hdr ≡ header_size)
    (whole : length payload ≡ declared hdr) (fits : declared hdr ≤ max_payload) where
  skips_unknown :
      is_known (header_type hdr) ≡ false
      → (t : Flat) → read_flat (at_bytes t ((hdr ++ payload) ++ t.bytes)) ≡ read_flat t
  skips_unknown unknown t =
      ap (λ (x : Bytes). read_flat (at_bytes t x)) (append_assoc hdr payload t.bytes)
      ∙ read_flat-header hdr (at_bytes t (payload ++ t.bytes)) size
      ∙ round_skips hdr payload t whole fits unknown

  accepts_known :
      is_known (header_type hdr) ≡ true
      → (t : Flat)
      → read_flat (at_bytes t ((hdr ++ payload) ++ t.bytes)) ≡ accept_frame flat hdr payload t
  accepts_known known t =
      ap (λ (x : Bytes). read_flat (at_bytes t x)) (append_assoc hdr payload t.bytes)
      ∙ read_flat-header hdr (at_bytes t (payload ++ t.bytes)) size
      ∙ round_accepts hdr payload t whole fits known

  meets : Meets (hdr ++ payload)
  meets = elim (Bool-cases (is_known (header_type hdr))) [
    | inr unknown ↦ skips (skips_unknown unknown)
    | inl known ↦ elim (Bool-cases (needs_stream (header_type hdr) && header_stream hdr == 0)) [
      | inl bad ↦
          stops stream_zero (λ t. accepts_known known t ∙ (unfold accept_frame in rw bad refl))
      | inr good ↦
          gives (frame_of hdr payload)
            (λ t. accepts_known known t ∙ (unfold accept_frame in rw good refl))
    ]
  ]

IsWire-Meets : (b : Bytes) → IsWire b → Meets b
IsWire-Meets b h =
    let hdr = take header_size b in
    let payload = drop header_size b in
    let split : hdr ++ payload ≡ b = take-append-drop header_size b in
    let size : length hdr ≡ header_size = omega (arith, length-take header_size b, h.size) in
    let same : be_u32 b ≡ be_u32 hdr =
      ap be_u32 (sym split) ∙ be_u32-append hdr payload (omega (arith, size)) in
    rw split at (
      meets hdr payload size (omega (arith, length-drop header_size b, h.size, same))
        (omega (arith, h.fits, same)))

IsNoise-skips :
    (b : Bytes) → IsNoise b → (t : Flat) → read_flat (at_bytes t (b ++ t.bytes)) ≡ read_flat t
IsNoise-skips b n t = rw n.split (skips_unknown n.hdr n.payload n.size n.whole n.fits n.unknown t)

-- The rest depends on the bytes and not on the pieces.
abbrev Alike : ℕ → Type 0
Alike m = (s t : Source) → flatten s ≡ flatten t → read_all m s ≡ read_all m t

read_all-view :
    (m : ℕ) (s t : Source)
    → Alike m
    → view (read s) ≡ view (read t)
    → read_all (suc m) s ≡ read_all (suc m) t
unfolding read_all
read_all-view m s t alike same = elim (Outcome-cases (read s)) [
  | inl (f, u, r) ↦
      let (v, r', left) = view-eq-ok (read t) (sym same ∙ ap view r) in
      rw (r, r', alike u v (sym left)) refl
  | inr (e, u, r) ↦
      let (v, r', left) = view-eq-err (read t) (sym same ∙ ap view r) in rw (r, r') refl
]

read_all-flatten : (m : ℕ) → Alike m
read_all-flatten zero s t same = unfold read_all in refl
read_all-flatten (suc m) s t same =
    read_all-view m s t (read_all-flatten m)
      (read_pieces s t (ap (λ (x : Flat). x.bytes) same) (ap (λ (x : Flat). x.fault) same))

flatten_front :
    (s : Source) (b rest : Bytes)
    → join s.chunks ≡ b ++ rest
    → flatten s ≡ record { bytes = b ++ rest; fault = s.fault }
flatten_front s b rest is = ap (λ (x : Bytes). record { bytes = x; fault = s.fault }) is

abbrev behind : Bytes → Source → Source
behind rest s = record { chunks = rest ∷ []; fault = s.fault }

-- A frame in front that is skipped.
read_all-skips :
    (m : ℕ) (s : Source) (b rest : Bytes)
    → ((t : Flat) → read_flat (at_bytes t (b ++ t.bytes)) ≡ read_flat t)
    → join s.chunks ≡ b ++ rest
    → read_all m s ≡ read_all m (behind rest s)
read_all-skips zero s b rest skip is = unfold read_all in refl
read_all-skips (suc m) s b rest skip is =
    let t : Flat = record { bytes = rest; fault = s.fault } in
    let one : rest ++ [] ≡ rest = append-nil rest in
    read_all-view m s (behind rest s) (read_all-flatten m) (
      read-Simulates.at s
      ∙ ap read_flat (flatten_front s b rest is)
      ∙ skip t
      ∙ ap (λ (x : Bytes). read_flat (at_bytes t x)) (sym one)
      ∙ sym (read-Simulates.at (behind rest s)))

read-gives :
    (f : Frame) (s : Source) (b rest : Bytes)
    → ((t : Flat) → read_flat (at_bytes t (b ++ t.bytes)) ≡ ok f t)
    → join s.chunks ≡ b ++ rest
    → (u : Source) × (read s ≡ ok f u) × (flatten u ≡ record { bytes = rest; fault = s.fault })
read-gives f s b rest here is =
    Simulates-ok s read-Simulates
      (ap read_flat (flatten_front s b rest is) ∙ here (record { bytes = rest; fault = s.fault }))

read-stops :
    (e : Error) (s : Source) (b rest : Bytes)
    → ((t : Flat) → read_flat (at_bytes t (b ++ t.bytes)) ≡ err e t)
    → join s.chunks ≡ b ++ rest
    → (u : Source) × (read s ≡ err e u) × (flatten u ≡ record { bytes = rest; fault = s.fault })
read-stops e s b rest here is =
    Simulates-err s read-Simulates
      (ap read_flat (flatten_front s b rest is) ∙ here (record { bytes = rest; fault = s.fault }))

read_all-a_frame :
    (m : ℕ) (b rest rest' : Bytes) (s t : Source)
    → Meets b
    → join s.chunks ≡ b ++ rest
    → join t.chunks ≡ b ++ rest'
    → s.fault ≡ t.fault
    → ((n : ℕ) (u v : Source)
        → join u.chunks ≡ rest
        → join v.chunks ≡ rest'
        → u.fault ≡ v.fault
        → read_all n u ≡ read_all n v)
    → read_all m s ≡ read_all m t
unfolding read_all
read_all-a_frame zero b rest rest' s t meet is is' same later = refl
read_all-a_frame (suc m) b rest rest' s t (gives f here) is is' same later =
    let (u, r, left) = read-gives f s b rest here is in
    let (v, r', left') = read-gives f t b rest' here is' in
    let next =
      later m u v (ap (λ (x : Flat). x.bytes) left) (ap (λ (x : Flat). x.bytes) left')
        (ap (λ (x : Flat). x.fault) left ∙ same ∙ sym (ap (λ (x : Flat). x.fault) left')) in
    rw (r, r', next) refl
read_all-a_frame (suc m) b rest rest' s t (stops e here) is is' same later =
    let (u, r, left) = read-stops e s b rest here is in
    let (v, r', left') = read-stops e t b rest' here is' in rw (r, r') refl
read_all-a_frame (suc m) b rest rest' s t (skips here) is is' same later =
    read_all-skips (suc m) s b rest here is
    ∙ later (suc m) (behind rest s) (behind rest' t) (append-nil rest) (append-nil rest') same
    ∙ sym (read_all-skips (suc m) t b rest' here is')

pub read_all-Woven :
    {bs : List Bytes} {ws : Bytes} (m : ℕ) (s t : Source)
    → Woven bs ws
    → All IsWire bs
    → join s.chunks ≡ join bs
    → join t.chunks ≡ ws
    → s.fault ≡ t.fault
    → read_all m s ≡ read_all m t
read_all-Woven m s t at_end all is is' same =
    read_all-flatten m s t
      (flatten_front s [] [] is ∙ rw same refl ∙ sym (flatten_front t [] [] is'))
read_all-Woven m s t (a_frame {bs} b ws' w split) (h, all) is is' same =
    read_all-a_frame m b (join bs) ws' s t (IsWire-Meets b h) is (is' ∙ split) same
      (λ n u v left left' faults. read_all-Woven n u v w all left left' faults)
read_all-Woven m s t (some_noise b ws' n w split) all is is' same =
    read_all-Woven m s (behind ws' t) w all is (append-nil ws') same
    ∙ sym (read_all-skips m t b ws' (IsNoise-skips b n) (is' ∙ split))
