-- ===== src/Protocol/Headers.antt =====
-- internal/protocol/headers.go: the header table, and the encoding of a list of headers.
pub mod Table
pub mod Write
pub mod Parse
pub mod Kept
use bhttp_1_http_in_binary.Base.{
  ℕ, zero, suc, ◌+◌, ◌*◌, ◌%◌, Bool, true, false, not, ◌&&◌, ◌||◌, Option, none, some, List, [],
  ◌∷◌, ◌++◌, Bytes, codes, bytes_eq, put_u16, Result, success, failure, ◌>>=?◌, Exec, ok, err, pure,
  fail, malformed, unencodable, ◌>>=◌, ltb, leb, ◌==◌, if◌then◌else◌, length, get_or,
}
use bhttp_1_http_in_binary.Protocol.{
  max_headers, max_custom_name_len, max_header_value_len, take_bytes, u8, u16,
}

-- A name's place is its identifier on the wire; place 0 is not used.
abbrev pub content_length : Bytes
content_length = codes "content-length"

abbrev pub table_names : List Bytes
table_names =
    []
    ∷ codes "content-type"
    ∷ content_length
    ∷ codes "server"
    ∷ codes "date"
    ∷ codes "connection"
    ∷ codes "content-encoding"
    ∷ codes "cache-control"
    ∷ codes "last-modified"
    ∷ []

-- The map `tableIDs` as an association list, built from the names; empty names are left out.
unfoldable pub index_names : ℕ → List Bytes → List (Bytes × ℕ)
index_names i [] = []
index_names i ([] ∷ names) = index_names (i + 1) names
index_names i ((c ∷ cs) ∷ names) = (c ∷ cs, i) ∷ index_names (i + 1) names

unfoldable pub lookup_name : Bytes → List (Bytes × ℕ) → Option ℕ
lookup_name k [] = none
lookup_name k ((n, i) ∷ m) = if bytes_eq n k then some i else lookup_name k m

unfoldable pub table_id : Bytes → Option ℕ
unfolding index_names lookup_name
table_id name = lookup_name name (index_names 0 table_names)

pub record Header : Type 0 where
  pub name : Bytes
  pub value : Bytes

abbrev pub new_header : Bytes → Bytes → Header
new_header name value = record { name = name; value = value }

-- The first value under a name.
unfoldable pub get : List Header → Bytes → Option Bytes
get [] name = none
get (h ∷ hs) name = if bytes_eq h.name name then some h.value else get hs name

unfoldable pub custom_char : ℕ → Bool
custom_char c =
    (leb b'a' c && leb c b'z') || (leb b'0' c && leb c b'9') || c == b'-' || c == b'_' || c == b'.'

unfoldable pub all_custom : Bytes → Bool
all_custom [] = true
all_custom (c ∷ cs) = custom_char c && all_custom cs

unfoldable pub valid_custom_name : Bytes → Bool
valid_custom_name name =
    if length name == 0 || ltb max_custom_name_len (length name) then false else all_custom name

-- The name of a header as it goes on the wire: an identifier, or 0 and the name itself.
unfoldable pub name_form : Bytes → Option ℕ → Result Bytes
name_form name (some id) = success (id ∷ [])
name_form name none =
    if not (valid_custom_name name)
    then failure unencodable
    else success (0 ∷ put_u16 (length name) ++ name)

unfoldable pub name_bytes : Header → Result Bytes
unfolding name_form
name_bytes h = name_form h.name (table_id h.name)

-- One round of the loop in `appendHeaders`.
unfoldable pub append_header : Bytes → Header → Result Bytes
append_header dst h =
    if ltb max_header_value_len (length h.value)
    then failure unencodable
    else name_bytes h >>=? λ n. success (dst ++ n ++ put_u16 (length h.value) ++ h.value)

unfoldable pub append_loop : Bytes → List Header → Result Bytes
append_loop dst [] = success dst
append_loop dst (h ∷ hs) = append_header dst h >>=? λ dst'. append_loop dst' hs

unfoldable pub append_headers : Bytes → List Header → Result Bytes
append_headers dst headers =
    if ltb max_headers (length headers)
    then failure unencodable
    else append_loop (dst ++ (length headers % 256 ∷ [])) headers

pub data NameRules : Type 0 where
  strict_names structural_names : NameRules

abbrev is_strict : NameRules → Bool
is_strict strict_names = true
is_strict structural_names = false

abbrev pub clashes : Bytes → Bool
clashes name = elim (table_id name) [ some id ↦ true | none ↦ false ]

-- The checks on a custom name that was read; `none` is a name that is not returned.
unfoldable pub judge_name : NameRules → Bytes → Exec Bytes (Option Bytes)
judge_name rules name =
    if length name == 0 || ltb max_custom_name_len (length name)
    then fail malformed
    else if is_strict rules && not (valid_custom_name name)
    then fail malformed
    else if is_strict rules && clashes name
    then fail malformed
    else if clashes name
    then pure none
    else pure (some name)

-- The switch on the identifier.
unfoldable pub read_name : NameRules → ℕ → Exec Bytes (Option Bytes)
unfolding judge_name
read_name rules id =
    if id == 0
    then (do n ← u16; raw ← take_bytes n; judge_name rules raw)
    else if ltb id (length table_names)
    then pure (some (get_or table_names id []))
    else pure none

unfoldable pub read_id : NameRules → Exec Bytes (Option Bytes)
read_id rules = do id ← u8; read_name rules id

abbrev pub kept : Option Bytes → Bytes → List Header
kept none value = []
kept (some name) value = new_header name value ∷ []

-- One round of the loop in `readHeaders`, with the header that it appends, if any.
unfoldable pub read_header : NameRules → Exec Bytes (List Header)
read_header rules = do name ← read_id rules; n ← u16; value ← take_bytes n; pure (kept name value)

unfoldable pub read_loop : NameRules → ℕ → List Header → Exec Bytes (List Header)
read_loop rules zero headers = pure headers
read_loop rules (suc n) headers = do more ← read_header rules; read_loop rules n (headers ++ more)

-- A count that cannot fit what remains is refused at once.
unfoldable pub read_counted : NameRules → ℕ → Exec Bytes (List Header)
read_counted rules count c =
    if ltb (length c) (count * 3) then err malformed c else read_loop rules count [] c

unfoldable pub read_headers : NameRules → Exec Bytes (List Header)
unfolding read_counted
read_headers rules = do count ← u8; read_counted rules count
