-- ===== src/Protocol/Headers/Kept/Names.antt =====
-- A name that `readName` returns under the strict rules can be sent again.
use bhttp_1_http_in_binary.Base.{
  ℕ, ◌+◌, ◌≤◌, ◌≡◌, refl, arith, true, false, Bool-cases, inl, inr, Option, some, none,
  Option-cases, [], ◌∷◌, ◌++◌, Bytes, IsByte, All, put_u16, success, ok, subst, ◌||◌, after-eq-ok,
  ok-inj, refused, length, length-append, get_or, ltb, ◌==◌,
}
use bhttp_1_http_in_binary.Protocol.{take_bytes, u16, max_custom_name_len}
use bhttp_1_http_in_binary.Protocol.Headers.{
  clashes, table_id, table_names, valid_custom_name, name_form, strict_names, judge_name, read_name,
}
use bhttp_1_http_in_binary.Protocol.Headers.Table.{table_names-table_id}
use bhttp_1_http_in_binary.Protocol.Headers.Write.{length-put_u16}
use bhttp_1_http_in_binary.Protocol.Cursor.Reads.{Reads, take_bytes-Reads, u16-Reads}

-- A name that is returned can be sent in as many bytes as it was read from.
pub data Sendable (k : ℕ) : Option Bytes → Type 0 where
  skipped : Sendable k none
  kept_name :
      (n b : Bytes) → name_form n (table_id n) ≡ success b → length b ≤ k → Sendable k (some n)

clashes-some : (n : Bytes) {id : ℕ} → table_id n ≡ some id → clashes n ≡ true
clashes-some n e = rw (clashes, e) refl

clashes-none : (n : Bytes) → table_id n ≡ none → clashes n ≡ false
clashes-none n e = rw (clashes, e) refl

judge_name-Sendable :
    (raw c : Bytes) {o : Option Bytes} {rest : Bytes}
    → judge_name strict_names raw c ≡ ok o rest
    → (c ≡ rest) × Sendable (3 + length raw) o
unfolding judge_name name_form
judge_name-Sendable raw c {o} {rest} e =
    elim (Bool-cases (length raw == 0 || ltb max_custom_name_len (length raw))) [
      | inl bad ↦ absurd (refused (rw bad at e))
      | inr fine ↦ elim (Bool-cases (valid_custom_name raw)) [
        | inr bad ↦ absurd (refused (rw (fine, bad) at e))
        | inl valid ↦ elim (Option-cases (table_id raw)) [
          | inr (id, listed) ↦ absurd (refused (rw (fine, valid, clashes-some raw listed) at e))
          | inl custom ↦
              let returns : ok (some raw) c ≡ ok o rest =
                rw (fine, valid, clashes-none raw custom) at e in
              let (is, same) = ok-inj returns in
              (
                same,
                subst (λ (x : Option Bytes). Sendable (3 + length raw) x) is
                    (kept_name raw (0 ∷ (put_u16 (length raw) ++ raw)) (rw (custom, valid) refl) (
                      omega (
                        arith,
                        length-append (put_u16 (length raw)) raw,
                        length-put_u16 (length raw),
                      ))),
              )
        ]
      ]
    ]

Sendable-more : (k n : ℕ) (o : Option Bytes) → k ≤ n → Sendable k o → Sendable n o
Sendable-more k n none h s = skipped
Sendable-more k n (some _) h (kept_name m b e fits) = kept_name m b e (omega arith)

pub read_name-Sendable :
    (id : ℕ) (c : Bytes) {o : Option Bytes} {rest : Bytes}
    → All IsByte c
    → read_name strict_names id c ≡ ok o rest
    → (k : ℕ) × Reads k c rest × Sendable (1 + k) o
unfolding read_name name_form
read_name-Sendable id c {o} {rest} h e = elim (Bool-cases (id == 0)) [
  | inl custom ↦
      let (n, c1, one, e1) = after-eq-ok (u16 c) _ (rw custom at e) in
      let (raw, c2, two, e2) = after-eq-ok (take_bytes n c1) _ e1 in
      let (r1, n_lt) = u16-Reads c h one in
      let (r2, size) = take_bytes-Reads n c1 r1.bytes two in
      let (same, sendable) = judge_name-Sendable raw c2 e2 in
      (
        2 + n,
        record {
          size = rw (← same) (omega (arith, r1.size, r2.size));
          bytes = rw same at r2.bytes;
        },
        Sendable-more (3 + length raw) (1 + (2 + n)) o (omega (arith, size)) sendable,
      )
  | inr other ↦ elim (Bool-cases (ltb id (length table_names))) [
    | inl listed ↦
        let returns : ok (some (get_or table_names id [])) c ≡ ok o rest =
          rw (other, listed) at e in
        let (is, same) = ok-inj returns in
        let found : table_id (get_or table_names id []) ≡ some id =
          table_names-table_id id (ground arith) (ground arith) in
        (
          0,
          record { size = rw same (omega arith); bytes = rw same at h },
          subst (λ (x : Option Bytes). Sendable 1 x) is
              (kept_name (get_or table_names id []) (id ∷ []) (rw found refl) (omega arith)),
        )
    | inr unknown ↦
        let returns : ok none c ≡ ok o rest = rw (other, unknown) at e in
        let (is, same) = ok-inj returns in
        (
          0,
          record { size = rw same (omega arith); bytes = rw same at h },
          subst (λ (x : Option Bytes). Sendable 1 x) is skipped,
        )
  ]
]
