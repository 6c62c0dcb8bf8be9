-- ===== src/Protocol/Headers/Table.antt =====
-- The header table and the map that is built from it are inverse to one another.
use bhttp_1_http_in_binary.Base.{
  ℕ, zero, suc, ◌+◌, ◌-◌, ◌≤◌, ◌<◌, ◌≡◌, ◌≢◌, refl, sym, arith, some, List, [], ◌∷◌, Bytes,
  bytes_eq, bytes_eq_iff, length, get_or, Bool-cases, inl, inr,
}
use bhttp_1_http_in_binary.Protocol.Headers.{index_names, lookup_name, table_id, table_names}

lookup_name-index_names :
    (names : List Bytes) (i : ℕ) (n : Bytes) {id : ℕ}
    → lookup_name n (index_names i names) ≡ some id
    → (i ≤ id) × (id < i + length names) × (get_or names (id - i) [] ≡ n) × (n ≢ [])
unfolding index_names lookup_name
lookup_name-index_names [] i n h = cc
lookup_name-index_names ([] ∷ names) i n {id} h =
    let (lo, hi, at, ne) = lookup_name-index_names names (i + 1) n h in
    let e : id - i ≡ suc (id - (i + 1)) = omega arith in (omega arith, omega arith, rw e at, ne)
lookup_name-index_names ((c ∷ cs) ∷ names) i n {id} h = elim (Bool-cases (bytes_eq (c ∷ cs) n)) [
  | inl same ↦
      let here : id ≡ i = ground arith in
      let none_left : id - i ≡ 0 = omega arith in
      let eq = (bytes_eq_iff (c ∷ cs) n).0 same in
      (omega arith, omega arith, rw none_left eq, λ e. cc)
  | inr other ↦
      let (lo, hi, at, ne) = lookup_name-index_names names (i + 1) n (rw other at h) in
      let e : id - i ≡ suc (id - (i + 1)) = omega arith in (omega arith, omega arith, rw e at, ne)
]

-- A name with an identifier is the table's name at that place, which is never 0.
pub table_id-table_names :
    (n : Bytes) {id : ℕ}
    → table_id n ≡ some id
    → (0 < id) × (id < length table_names) × (get_or table_names id [] ≡ n) × (n ≢ [])
unfolding table_id
table_id-table_names n {id} h =
    let (lo, hi, at, ne) = lookup_name-index_names table_names 0 n h in
    let e : id - 0 ≡ id = omega arith in (positive id (rw e at at) ne, omega arith, rw e at at, ne)
  where
    positive : (id : ℕ) → get_or table_names id [] ≡ n → n ≢ [] → 0 < id
    positive zero at ne = absurd (ne (sym at))
    positive (suc id) at ne = omega arith

-- Each place but 0 has its own name.
pub table_names-table_id :
    (id : ℕ) → 0 < id → id < length table_names → table_id (get_or table_names id []) ≡ some id
unfolding table_id bytes_eq
table_names-table_id zero lo hi = absurd (omega arith)
table_names-table_id (suc zero) lo hi = refl
table_names-table_id (suc (suc zero)) lo hi = refl
table_names-table_id (suc (suc (suc zero))) lo hi = refl
table_names-table_id (suc (suc (suc (suc zero)))) lo hi = refl
table_names-table_id (suc (suc (suc (suc (suc zero))))) lo hi = refl
table_names-table_id (suc (suc (suc (suc (suc (suc zero)))))) lo hi = refl
table_names-table_id (suc (suc (suc (suc (suc (suc (suc zero))))))) lo hi = refl
table_names-table_id (suc (suc (suc (suc (suc (suc (suc (suc zero)))))))) lo hi = refl
table_names-table_id (suc (suc (suc (suc (suc (suc (suc (suc (suc id))))))))) lo hi =
    absurd (omega arith)
