-- ===== src/Cli/Bserve/Usage.antt =====
-- Which command lines bserve takes.
use bhttp_1_http_in_binary.Base.{
  ℕ, zero, suc, ◌≡◌, ◌≤◌, ◌<◌, ◌↔◌, ◌⊎◌, inl, inr, refl, arith, true, false, Bool-cases, some,
  Option-cases, List, [], ◌∷◌, Bytes, All, Result, Result-cases, length,
}
use bhttp_1_http_in_binary.Base.Decimal.{
  digits_value, IsDigit, all_digits, all_digits_iff, format_int,
}
use bhttp_1_http_in_binary.Base.Ints.{pos, negate}
use bhttp_1_http_in_binary.Server.Paths.{FilePath}
use bhttp_1_http_in_binary.Server.Resolver.{FileSystem}
use bhttp_1_http_in_binary.Server.Startup.{Config, Server, new}
use bhttp_1_http_in_binary.Cli.Addresses.{colon}
use bhttp_1_http_in_binary.Cli.Bserve.{
  Texts, signed, atoi, in_range, port_of, listen_and_serve, run_on_port, run,
}

-- Digits for a number that is a port.
abbrev pub IsDecimal : Bytes → ℕ → Type 0
IsDecimal ds p = (0 < length ds) × All IsDigit ds × (digits_value 0 ds ≡ p) × (p ≤ 65535)

-- The text of a port: digits, behind a sign or not.
abbrev pub IsPort : Bytes → ℕ → Type 0
IsPort [] p = ⊥
IsPort (c ∷ cs) p =
    IsDecimal (c ∷ cs) p ⊎ ((c ≡ b'+') × IsDecimal cs p) ⊎ ((c ≡ b'-') × IsDecimal cs p × (p ≡ 0))

signed_plus_iff : (ds : Bytes) (p : ℕ) → (in_range (signed false ds) ≡ some p) ↔ IsDecimal ds p
unfolding signed
signed_plus_iff ds p = elim (Bool-cases (all_digits ds)) [
  | inl d ↦ rw d (ground (arith, (all_digits_iff ds).0 d))
  | inr d ↦ rw d (ground (arith, all_digits_iff ds))
]

negate_iff : (n p : ℕ) → (in_range (some (negate n)) ≡ some p) ↔ ((n ≡ 0) × (p ≡ 0))
unfolding negate
negate_iff zero p = ground arith
negate_iff (suc n) p = ground arith

signed_minus_iff :
    (ds : Bytes) (p : ℕ) → (in_range (signed true ds) ≡ some p) ↔ (IsDecimal ds p × (p ≡ 0))
unfolding signed
signed_minus_iff ds p = ground (arith, all_digits_iff ds, negate_iff (digits_value 0 ds) p)

pub port_of_iff : (t : Bytes) (p : ℕ) → (port_of t ≡ some p) ↔ IsPort t p
unfolding port_of atoi
port_of_iff [] p = ground arith
port_of_iff (c ∷ cs) p =
    ground (arith, signed_plus_iff (c ∷ cs) p, signed_plus_iff cs p, signed_minus_iff cs p)

-- A root and a port.
abbrev pub IsCommandLine : List Bytes → Type 0
IsCommandLine [] = ⊥
IsCommandLine (root ∷ []) = ⊥
IsCommandLine (root ∷ port ∷ []) = (p : ℕ) × IsPort port p
IsCommandLine (root ∷ port ∷ a ∷ args) = ⊥

module _ (texts : Texts) (fs : FileSystem) (abs : Bytes → Result FilePath)
    (listen : Bytes → Result Bytes) where
  serve_status :
      (root : Bytes) (p : ℕ) (srv : Server)
      → (listen_and_serve texts fs abs listen root p srv).status ≤ 1
  unfolding listen_and_serve
  serve_status root p srv = elim (Result-cases (listen (colon ∷ format_int p))) [
    | inl (l, e) ↦ rw e (omega arith)
    | inr (x, e) ↦ rw e (omega arith)
  ]

  run_on_port_status :
      (root port : Bytes) (p : ℕ) → (run_on_port texts fs abs listen root port (some p)).status ≤ 1
  unfolding run_on_port
  run_on_port_status root port p =
      let cfg : Config = record { root = root; idle_timeout = pos 0; write_timeout = pos 0 } in
      elim (Result-cases (new fs abs cfg)) [
        | inl (srv, e) ↦ rw e (serve_status root p srv)
        | inr (x, e) ↦ rw e (omega arith)
      ]

  -- Whatever the file system and the network do, bserve exits with 2 exactly if its arguments are
  -- not a root and a port: decimal digits behind a plus sign or none, for a number up to 65535, or
  -- behind a minus sign for 0.
  pub run_usage :
      (args : List Bytes) → ((run texts fs abs listen args).status ≡ 2) ↔ (¬ IsCommandLine args)
  unfolding run
  run_usage [] = (λ e. λ h. h, λ h. refl)
  run_usage (root ∷ []) = (λ e. λ h. h, λ h. refl)
  run_usage (root ∷ port ∷ a ∷ args) = (λ e. λ h. h, λ h. refl)
  run_usage (root ∷ port ∷ []) = elim (Option-cases (port_of port)) [
    | inl e ↦ (λ two. λ h. cc (e, (port_of_iff port h.0).1 h.1), λ h. rw e refl)
    | inr (p, e) ↦ (
      λ two. absurd (omega (arith, run_on_port_status root port p, (rw e at two))),
      λ h. absurd (h (p, (port_of_iff port p).0 e)),
    )
  ]
