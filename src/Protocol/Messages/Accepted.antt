-- ===== src/Protocol/Messages/Accepted.antt =====
-- Each request that DecodeRequest accepts is one that Encode takes.
use bhttp_1_http_in_binary.Base.{
  ℕ, ◌+◌, ◌≤◌, ◌<◌, ◌≡◌, refl, arith, true, false, ◌||◌, Bool-cases, inl, inr, ◌∷◌, ◌++◌, Bytes,
  IsByte, All, put_u16, success, Outcome, ok, err, after-eq-ok, ok-inj, refused, subst, List,
  length, length-append, ltb, ◌==◌,
}
use bhttp_1_http_in_binary.Protocol.{
  take_bytes, u8, u16, finish, max_path_len, method_get, max_frame_payload,
}
use bhttp_1_http_in_binary.Protocol.Utf8.{valid_utf8}
use bhttp_1_http_in_binary.Protocol.Headers.{Header, read_headers, strict_names, append_headers}
use bhttp_1_http_in_binary.Protocol.Headers.Write.{Written, append_headers-append, length-put_u16}
use bhttp_1_http_in_binary.Protocol.Cursor.Reads.{Reads, take_bytes-Reads, u8-Reads, u16-Reads}
use bhttp_1_http_in_binary.Protocol.Headers.Kept.{read_headers-Again}
use bhttp_1_http_in_binary.Protocol.Messages.{
  Request, request_front, bad_path_length, encode_request, read_path, read_request, decode_request,
  forget_cursor,
}

read_path-Reads :
    (c : Bytes) {path rest : Bytes}
    → All IsByte c
    → read_path c ≡ ok path rest
    → Reads (2 + length path) c rest × (bad_path_length path ≡ false) × (valid_utf8 path ≡ true)
unfolding read_path
read_path-Reads c {path} {rest} h e =
    let (n, c1, one, e1) = after-eq-ok (u16 c) _ e in
    let (r1, n_lt) = u16-Reads c h one in
    elim (Bool-cases (n == 0 || ltb max_path_len n)) [
      | inl bad ↦ absurd (refused (rw bad at e1))
      | inr good ↦
          let (p, c2, two, e2) = after-eq-ok (take_bytes n c1) _ (rw good at e1) in
          let (r2, size) = take_bytes-Reads n c1 r1.bytes two in
          elim (Bool-cases (valid_utf8 p)) [
            | inr bad ↦ absurd (refused (rw bad at e2))
            | inl valid ↦
                let (is, same) = ok-inj (rw valid at e2) in
                (
                  record {
                    size = rw (← is, ← same) (omega (arith, r1.size, r2.size, size));
                    bytes = rw same at r2.bytes;
                  },
                  rw (← is, size) good,
                  rw (← is) valid,
                )
          ]
    ]

-- A request whose path is good and whose headers were written behind it.
encode_request-append :
    (r : Request) (bs : Bytes)
    → r.method ≡ method_get
    → bad_path_length r.path ≡ false
    → valid_utf8 r.path ≡ true
    → append_headers (request_front r) r.headers
      ≡ success (request_front r ++ (length r.headers ∷ bs))
    → length (request_front r ++ (length r.headers ∷ bs)) ≤ max_frame_payload
    → encode_request r ≡ success (request_front r ++ (length r.headers ∷ bs))
unfolding encode_request
encode_request-append r bs get good valid added fits =
    let is_get : (r.method == method_get) ≡ true = ground arith in
    let small : ltb max_frame_payload (length (request_front r ++ (length r.headers ∷ bs)))
        ≡ false =
      ground arith in
    rw (is_get, good, valid, added, small) refl

forget_cursor-eq-success :
    (o : Outcome Bytes Request) {r : Request}
    → forget_cursor o ≡ success r
    → (c : Bytes) × (o ≡ ok r c)
forget_cursor-eq-success (ok a c) h = (c, cc)
forget_cursor-eq-success (err e c) h = cc

-- Encode takes the request, and gives at most `n` bytes.
abbrev pub Encodes : ℕ → Request → Type 0
Encodes n r = (b : Bytes) × (encode_request r ≡ success b) × (length b ≤ n)

request_Encodes :
    (n : ℕ) (path : Bytes) (hs : List Header) (bs : Bytes)
    → n ≤ max_frame_payload
    → bad_path_length path ≡ false
    → valid_utf8 path ≡ true
    → length hs < 256
    → Written hs bs
    → 1 + (2 + length path) + (1 + length bs) ≤ n
    → Encodes n (record { method = method_get; path = path; headers = hs })
request_Encodes n path hs bs fits good valid few written size =
    let q : Request = record { method = method_get; path = path; headers = hs } in
    let wire = request_front q ++ (length hs ∷ bs) in
    let shorter : length wire ≤ n = omega (
      arith,
      length-append (put_u16 (length path) ++ path) (length hs ∷ bs),
      length-append (put_u16 (length path)) path,
      length-put_u16 (length path),
      size,
    ) in
    (
      wire,
      encode_request-append q bs refl good valid
          (append_headers-append (request_front q) hs bs few written)
          (omega (arith, shorter, fits)),
      shorter,
    )

read_request-Encodes :
    (b : Bytes) {r : Request} {end : Bytes}
    → All IsByte b
    → length b ≤ max_frame_payload
    → read_request b ≡ ok r end
    → Encodes (length b) r
unfolding read_request
read_request-Encodes b {r} h fits got =
    let (method, c1, one, e1) = after-eq-ok (u8 b) _ got in
    let (r1, is_byte) = u8-Reads b h one in
    elim (Bool-cases (method == method_get)) [
      | inr bad ↦ absurd (refused (rw bad at e1))
      | inl get ↦
          let (path, c2, two, e2) = after-eq-ok (read_path c1) _ (rw get at e1) in
          let (r2, good, valid) = read_path-Reads c1 r1.bytes two in
          let (hs, c3, three, e3) = after-eq-ok (read_headers strict_names c2) _ e2 in
          let (few, w, size) = read_headers-Again c2 r2.bytes three in
          let (x, c4, four, e4) = after-eq-ok (finish c3) _ e3 in
          subst (λ (q : Request). Encodes (length b) q) (ok-inj e4).0
            (request_Encodes (length b) path hs w.wire fits good valid few w.written
              (omega (arith, r1.size, r2.size, size)))
    ]

-- A payload of bytes that is no longer than a frame allows: if DecodeRequest accepts it, the
-- request that it returns is one that Encode takes, and Encode makes no more bytes of it than
-- there were, headers that nobody knows being left out.
pub decode_request-Encodes :
    (b : Bytes) {r : Request}
    → All IsByte b
    → length b ≤ max_frame_payload
    → decode_request b ≡ success r
    → Encodes (length b) r
unfolding decode_request
decode_request-Encodes b h fits e =
    let (end, got) = forget_cursor-eq-success (read_request b) e in
    read_request-Encodes b h fits got
