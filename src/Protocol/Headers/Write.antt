-- ===== src/Protocol/Headers/Write.antt =====
-- What `appendHeaders` writes behind the bytes that it is given.
use bhttp_1_http_in_binary.Base.{
  ℕ, ◌*◌, ◌≤◌, ◌<◌, ◌≡◌, refl, ◌∙◌, arith, true, ◌%◌, List, [], ◌∷◌, ◌++◌, append-nil, append_assoc,
  Bytes, put_u16, Result, success, failure, ◌>>=?◌, length, length-append, ltb, Bool-cases, inl,
  inr, ◌⊎◌, Option, some, none, ap, sym, false,
}
use bhttp_1_http_in_binary.Protocol.{max_headers, max_header_value_len}
use bhttp_1_http_in_binary.Protocol.Headers.{
  Header, table_id, valid_custom_name, name_form, name_bytes, append_header, append_loop,
  append_headers,
}

abbrev pub value_bytes : Header → Bytes
value_bytes h = put_u16 (length h.value) ++ h.value

-- `bs` is the encoding of the headers, one after the other.
abbrev pub Written : List Header → Bytes → Type 0
Written [] bs = bs ≡ []
Written (h ∷ hs) bs =
    (name : Bytes) × (rest : Bytes) × (name_bytes h ≡ success name)
    × (length h.value ≤ max_header_value_len)
    × (bs ≡ name ++ (value_bytes h ++ rest))
    × Written hs rest

pub >>=?-eq-success {ℓ κ} :
    {A : Type ℓ} {B : Type κ} (m : Result A) (f : A → Result B) {b : B}
    → m >>=? f ≡ success b
    → (a : A) × (m ≡ success a) × (f a ≡ success b)
>>=?-eq-success (success a) f h = (a, refl, h)
>>=?-eq-success (failure e) f h = cc

pub length-put_u16 : (v : ℕ) → length (put_u16 v) ≡ 2
unfolding put_u16
length-put_u16 v = refl

append_header-eq-success :
    (dst : Bytes) (h : Header) {b : Bytes}
    → append_header dst h ≡ success b
    → (name : Bytes) × (name_bytes h ≡ success name)
      × (length h.value ≤ max_header_value_len)
      × (b ≡ dst ++ (name ++ value_bytes h))
unfolding append_header
append_header-eq-success dst h e = elim (Bool-cases (ltb max_header_value_len (length h.value))) [
  | inl big ↦ absurd (ground arith)
  | inr fits ↦
      let (name, named, out) = >>=?-eq-success (name_bytes h) _ (rw fits at e) in
      let size = put_u16 (length h.value) in
      (
        name,
        named,
        ground arith,
        cc (out, append_assoc (dst ++ name) size h.value, append_assoc dst name (size ++ h.value)),
      )
]

regroup :
    (dst name value rest : Bytes) {b dst' : Bytes}
    → dst' ≡ dst ++ (name ++ value)
    → b ≡ dst' ++ rest
    → b ≡ dst ++ (name ++ (value ++ rest))
regroup dst name value rest front all =
    cc (append_assoc dst (name ++ value) rest, append_assoc name value rest)

pub append_loop-Written :
    (hs : List Header) (dst : Bytes) {b : Bytes}
    → append_loop dst hs ≡ success b
    → (bs : Bytes) × (b ≡ dst ++ bs) × Written hs bs
unfolding append_loop
append_loop-Written [] dst h = ([], cc (append-nil dst), refl)
append_loop-Written (h ∷ hs) dst e =
    let (dst', one, later) = >>=?-eq-success (append_header dst h) _ e in
    let (name, named, fits, front) = append_header-eq-success dst h one in
    let (rest, all, written) = append_loop-Written hs dst' later in
    (
      name ++ (value_bytes h ++ rest),
      regroup dst name (value_bytes h) rest front all,
      (name, rest, named, fits, refl, written),
    )

-- `appendHeaders` succeeds on at most 255 headers, and writes the count and then each of them.
pub append_headers-Written :
    (dst : Bytes) (hs : List Header) {b : Bytes}
    → append_headers dst hs ≡ success b
    → (length hs ≤ max_headers) × ((bs : Bytes) × (b ≡ dst ++ (length hs ∷ bs)) × Written hs bs)
unfolding append_headers
append_headers-Written dst hs {b} e = elim (Bool-cases (ltb max_headers (length hs))) [
  | inl big ↦ absurd (ground arith)
  | inr fits ↦
      let few : length hs ≤ max_headers = ground arith in
      let count : length hs % 256 ≡ length hs = omega arith in
      let (bs, all, written) =
        append_loop-Written hs (dst ++ (length hs ∷ [])) (rw (fits, count) at e) in
      (few, (bs, all ∙ append_assoc dst (length hs ∷ []) bs, written))
]

name_form-cases :
    (n : Bytes) (o : Option ℕ) {name : Bytes}
    → name_form n o ≡ success name
    → ((id : ℕ) × (o ≡ some id) × (name ≡ id ∷ []))
      ⊎ ((o ≡ none) × (valid_custom_name n ≡ true) × (name ≡ 0 ∷ (put_u16 (length n) ++ n)))
unfolding name_form
name_form-cases n (some id) e = inl (id, refl, cc)
name_form-cases n none e = elim (Bool-cases (valid_custom_name n)) [
  | inl valid ↦ inr (refl, valid, ground arith)
  | inr bad ↦ absurd (ground arith)
]

-- The two forms of a name: the identifier of the table, or 0 and a name that is not in it.
pub name_bytes-cases :
    (h : Header) {name : Bytes}
    → name_bytes h ≡ success name
    → ((id : ℕ) × (table_id h.name ≡ some id) × (name ≡ id ∷ []))
      ⊎ ((table_id h.name ≡ none)
          × (valid_custom_name h.name ≡ true)
          × (name ≡ 0 ∷ (put_u16 (length h.name) ++ h.name)))
unfolding name_bytes
name_bytes-cases h e = name_form-cases h.name (table_id h.name) e

length-name_bytes : (h : Header) {name : Bytes} → name_bytes h ≡ success name → 0 < length name
length-name_bytes h e = elim (name_bytes-cases h e) [
  | inl (id, listed, is) ↦ rw is (omega arith)
  | inr (custom, valid, is) ↦ rw is (omega arith)
]

-- The encodings of headers take three bytes each at least.
pub Written-length : (hs : List Header) (bs : Bytes) → Written hs bs → length hs * 3 ≤ length bs
Written-length [] bs h = omega arith
Written-length (h ∷ hs) bs (name, rest, named, fits, e, w) = omega (
  arith,
  ap length e,
  length-append name (value_bytes h ++ rest),
  length-append (value_bytes h) rest,
  length-append (put_u16 (length h.value)) h.value,
  length-put_u16 (length h.value),
  length-name_bytes h named,
  Written-length hs rest w,
)

append_header-Written :
    (dst : Bytes) (h : Header) {name : Bytes}
    → name_bytes h ≡ success name
    → length h.value ≤ max_header_value_len
    → append_header dst h ≡ success (dst ++ (name ++ value_bytes h))
unfolding append_header
append_header-Written dst h {name} named fits =
    let small : ltb max_header_value_len (length h.value) ≡ false = ground arith in
    rw (small, named)
      (ap success (
        append_assoc (dst ++ name) (put_u16 (length h.value)) h.value
        ∙ append_assoc dst name (value_bytes h)))

append_loop-append :
    (hs : List Header) (dst bs : Bytes) → Written hs bs → append_loop dst hs ≡ success (dst ++ bs)
unfolding append_loop
append_loop-append [] dst bs is = rw is (ap success (sym (append-nil dst)))
append_loop-append (h ∷ hs) dst bs (name, rest, named, fits, is, more) =
    rw (append_header-Written dst h named fits) (
      append_loop-append hs (dst ++ (name ++ value_bytes h)) rest more
      ∙ ap success (
          append_assoc dst (name ++ value_bytes h) rest
          ∙ ap (λ (z : Bytes). dst ++ z) (append_assoc name (value_bytes h) rest ∙ sym is)))

-- `appendHeaders` on headers that can be sent.
pub append_headers-append :
    (dst : Bytes) (hs : List Header) (bs : Bytes)
    → length hs < 256
    → Written hs bs
    → append_headers dst hs ≡ success (dst ++ (length hs ∷ bs))
unfolding append_headers
append_headers-append dst hs bs few w =
    let small : ltb 255 (length hs) ≡ false = ground arith in
    let count : length hs % 256 ≡ length hs = omega arith in
    rw (small, count)
      (append_loop-append hs (dst ++ (length hs ∷ [])) bs w
        ∙ ap success (append_assoc dst (length hs ∷ []) bs))
