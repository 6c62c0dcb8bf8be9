-- ===== src/Exchange/Sent/Headers.antt =====
-- The headers that the server sends always fit: its calls of `Encode` do not fail.
use bhttp_1_http_in_binary.Base.{
  ℕ, ◌+◌, ◌*◌, ◌%◌, ◌≤◌, ◌<◌, ◌^◌, ◌≡◌, refl, arith, true, false, List, [], ◌∷◌, ◌++◌, Bytes, codes,
  success, length, length-append, ltb, put_u16, bytes_eq, some, All,
}
use bhttp_1_http_in_binary.Protocol.Headers.{
  Header, new_header, table_id, name_form, name_bytes, append_header, append_loop, append_headers,
}
use bhttp_1_http_in_binary.Protocol.Headers.Write.{length-put_u16}
use bhttp_1_http_in_binary.Protocol.Messages.{encode_response, valid_status}
use bhttp_1_http_in_binary.Frame.{max_payload}
use bhttp_1_http_in_binary.Server.Requests.{file_headers, status_headers}
use bhttp_1_http_in_binary.Base.Decimal.{length-format_int}

-- A header that cannot be refused: its name is in the table and its value is short.
pub record IsListed (h : Header) : Type 0 where
  pub id : ℕ
  pub in_table : table_id h.name ≡ some id
  pub short : length h.value ≤ 255

abbrev cost : List Header → ℕ
cost [] = 0
cost (h ∷ hs) = 3 + length h.value + cost hs

append_header-IsListed :
    (dst : Bytes) (h : Header)
    → IsListed h
    → (b : Bytes) × (append_header dst h ≡ success b)
      × (length b ≡ length dst + (3 + length h.value))
unfolding append_header name_bytes name_form
append_header-IsListed dst h l =
    let small : ltb 65535 (length h.value) ≡ false = ground (arith, l.short) in
    let size = put_u16 (length h.value) in
    let id = l.id ∷ [] in
    (
      dst ++ id ++ size ++ h.value,
      rw small (rw l.in_table),
      omega (
        arith,
        length-append (dst ++ id ++ size) h.value,
        length-append (dst ++ id) size,
        length-append dst id,
        length-put_u16 (length h.value),
      ),
    )

append_loop-IsListed :
    (hs : List Header) (dst : Bytes)
    → All IsListed hs
    → (b : Bytes) × (append_loop dst hs ≡ success b) × (length b ≡ length dst + cost hs)
unfolding append_loop
append_loop-IsListed [] dst h = (dst, refl, omega arith)
append_loop-IsListed (h ∷ hs) dst (l, ls) =
    let (dst', one, n) = append_header-IsListed dst h l in
    let (b, later, m) = append_loop-IsListed hs dst' ls in (b, rw one later, omega arith)

cost-le : (hs : List Header) → All IsListed hs → cost hs ≤ 258 * length hs
cost-le [] h = omega arith
cost-le (h ∷ hs) (l, ls) = omega (arith, cost-le hs ls, l.short)

-- Few such headers make a payload of one frame.
pub encode_response-IsListed :
    (status : ℕ) (hs : List Header)
    → valid_status status ≡ true
    → length hs ≤ 16
    → All IsListed hs
    → (payload : Bytes) × (encode_response (record { status = status; headers = hs })
        ≡ success payload)
      × (length payload ≤ max_payload)
unfolding encode_response append_headers
encode_response-IsListed status hs valid few ls =
    let dst = put_u16 status ++ (length hs % 256 ∷ []) in
    let (b, e, n) = append_loop-IsListed hs dst ls in
    let m : length b ≤ max_payload = omega (
      arith,
      cost-le hs ls,
      length-append (put_u16 status) (length hs % 256 ∷ []),
      length-put_u16 status,
    ) in
    let few' : ltb 255 (length hs) ≡ false = ground arith in
    let fits : ltb 16384 (length b) ≡ false = ground arith in
    (b, rw valid (rw few' (rw e (rw fits))), m)

module _ (name value : Bytes) (short : length value ≤ 255) where
  listed : (id : ℕ) → table_id name ≡ some id → IsListed (new_header name value)
  listed id e = record { id = id; in_table = e; short = short }

pub status_headers-IsListed : All IsListed status_headers
unfolding table_id bytes_eq
status_headers-IsListed = (listed _ _ (omega arith) 2 refl, (listed _ _ (omega arith) 3 refl, tt))

pub file_headers-IsListed :
    (ctype : Bytes) (size : ℕ)
    → length ctype ≤ 255
    → size < 2 ^ 63
    → All IsListed (file_headers ctype size)
unfolding table_id bytes_eq
file_headers-IsListed ctype size short range = (
  listed (codes "content-type") ctype short 1 refl,
  (
    listed _ _ (omega (arith, length-format_int size range)) 2 refl,
    (listed _ _ (omega arith) 3 refl, tt),
  ),
)
