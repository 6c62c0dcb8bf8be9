-- ===== src/Protocol/Headers/Parse.antt =====
-- What `appendHeaders` wrote is read back, under either set of name rules.
use bhttp_1_http_in_binary.Base.{
  ℕ, zero, suc, ◌*◌, ◌≤◌, ◌<◌, ◌≡◌, refl, ap, ◌∙◌, arith, true, false, some, none, inl, inr, List,
  [], ◌∷◌, ◌++◌, append-nil, append_assoc, Bytes, put_u16, success, ok, length, length-append, ltb,
  ge→ltb, get_or,
}
use bhttp_1_http_in_binary.Protocol.{max_headers, max_header_value_len}
use bhttp_1_http_in_binary.Protocol.Cursor.{take_bytes-append, u8-cons, u16-put_u16}
use bhttp_1_http_in_binary.Protocol.Headers.{
  Header, NameRules, strict_names, structural_names, table_id, table_names, name_bytes,
  valid_custom_name, judge_name, read_name, read_id, read_header, read_loop, read_headers,
}
use bhttp_1_http_in_binary.Protocol.Headers.Table.{table_id-table_names}
use bhttp_1_http_in_binary.Protocol.Headers.Write.{
  value_bytes, Written, name_bytes-cases, Written-length,
}

-- A custom name that may be sent passes both sets of rules.
judge_name-valid :
    (rules : NameRules) (name c : Bytes)
    → valid_custom_name name ≡ true
    → table_id name ≡ none
    → judge_name rules name c ≡ ok (some name) c
unfolding judge_name valid_custom_name
judge_name-valid strict_names name c valid custom = ground arith
judge_name-valid structural_names name c valid custom = ground arith

length-valid_custom_name : (name : Bytes) → valid_custom_name name ≡ true → length name ≤ 255
unfolding valid_custom_name
length-valid_custom_name name valid = ground arith

read_name-custom :
    (rules : NameRules) (name rest : Bytes)
    → valid_custom_name name ≡ true
    → table_id name ≡ none
    → read_name rules 0 (put_u16 (length name) ++ (name ++ rest)) ≡ ok (some name) rest
unfolding read_name
read_name-custom rules name rest valid custom =
    rw
      (u16-put_u16 (length name) (name ++ rest)
        (omega (arith, length-valid_custom_name name valid)))
      (rw (take_bytes-append (length name) name rest refl)
        (judge_name-valid rules name rest valid custom))

read_name-listed :
    (rules : NameRules) (id : ℕ) (rest : Bytes)
    → 0 < id
    → id < length table_names
    → read_name rules id rest ≡ ok (some (get_or table_names id [])) rest
unfolding read_name
read_name-listed rules zero rest lo hi = absurd (omega arith)
read_name-listed rules (suc id) rest lo hi = ground arith

read_id-name_bytes :
    (rules : NameRules) (h : Header) {name : Bytes} (rest : Bytes)
    → name_bytes h ≡ success name
    → read_id rules (name ++ rest) ≡ ok (some h.name) rest
unfolding read_id
read_id-name_bytes rules h rest e = elim (name_bytes-cases h e) [
  | inl (id, listed, is) ↦
      let (lo, hi, at, ne) = table_id-table_names h.name listed in
      rw (is, u8-cons) (rw (← at) (read_name-listed rules id rest lo hi))
  | inr (custom, valid, is) ↦
      rw (is, u8-cons) (rw append_assoc (read_name-custom rules h.name rest valid custom))
]

read_header-value :
    (rules : NameRules) (h : Header) {name : Bytes} (rest : Bytes)
    → name_bytes h ≡ success name
    → length h.value ≤ max_header_value_len
    → read_header rules (name ++ (value_bytes h ++ rest)) ≡ ok (h ∷ []) rest
unfolding read_header
read_header-value rules h rest e fits = rw (read_id-name_bytes rules h (value_bytes h ++ rest) e) (
    rw (append_assoc, u16-put_u16 (length h.value) (h.value ++ rest) (omega arith))
      (rw (take_bytes-append (length h.value) h.value rest refl)))

read_loop-Written :
    (rules : NameRules) (hs acc : List Header) (bs rest : Bytes)
    → Written hs bs
    → read_loop rules (length hs) acc (bs ++ rest) ≡ ok (acc ++ hs) rest
unfolding read_loop
read_loop-Written rules [] acc bs rest e = rw (e, append-nil)
read_loop-Written rules (h ∷ hs) acc bs rest (name, more, named, fits, e, written) =
    rw (e, append_assoc)
      (rw append_assoc (
        rw (read_header-value rules h (more ++ rest) named fits) (
          read_loop-Written rules hs (acc ++ (h ∷ [])) more rest written
          ∙ ap (λ (x : List Header). ok x rest) (append_assoc acc (h ∷ []) hs))))

-- The count byte and the headers behind it give the same headers back, and leave what follows.
pub read_headers-Written :
    (rules : NameRules) (hs : List Header) (bs rest : Bytes)
    → length hs ≤ max_headers
    → Written hs bs
    → read_headers rules (length hs ∷ (bs ++ rest)) ≡ ok hs rest
unfolding read_headers
read_headers-Written rules hs bs rest few written =
    let room : ltb (length (bs ++ rest)) (length hs * 3) ≡ false =
      ge→ltb _ _ (omega (arith, length-append bs rest, Written-length hs bs written)) in
    rw u8-cons (rw room (read_loop-Written rules hs [] bs rest written))
