-- ===== src/Server/Mime.antt =====
-- internal/server/mime.go
use bhttp_1_http_in_binary.Base.{
  All, refl, Bool-cases, inl, inr, length, ◌≤◌, ◌≡◌, arith, ◌+◌, ◌&&◌, List, [], ◌∷◌, Option, none,
  some, Bytes, codes, bytes_eq, leb, ◌==◌, if◌then◌else◌,
}
use bhttp_1_http_in_binary.Server.Paths.{dot, has_byte}

abbrev pub content_types : List (Bytes × Bytes)
content_types =
    (codes ".html", codes "text/html")
    ∷ (codes ".htm", codes "text/html")
    ∷ (codes ".css", codes "text/css")
    ∷ (codes ".js", codes "text/javascript")
    ∷ (codes ".json", codes "application/json")
    ∷ (codes ".txt", codes "text/plain")
    ∷ (codes ".xml", codes "application/xml")
    ∷ (codes ".svg", codes "image/svg+xml")
    ∷ (codes ".png", codes "image/png")
    ∷ (codes ".jpg", codes "image/jpeg")
    ∷ (codes ".jpeg", codes "image/jpeg")
    ∷ (codes ".gif", codes "image/gif")
    ∷ (codes ".webp", codes "image/webp")
    ∷ (codes ".ico", codes "image/x-icon")
    ∷ (codes ".pdf", codes "application/pdf")
    ∷ (codes ".zip", codes "application/zip")
    ∷ (codes ".wasm", codes "application/wasm")
    ∷ []

unfoldable pub lookup_type : Bytes → List (Bytes × Bytes) → Option Bytes
lookup_type ext [] = none
lookup_type ext ((e, t) ∷ more) = if bytes_eq e ext then some t else lookup_type ext more

-- filepath.Ext of a name without a slash: from its last dot on.
unfoldable pub extension : Bytes → Bytes
unfolding has_byte
extension [] = []
extension (b ∷ bs) =
    let rest = extension bs in
    let here = if b == dot then b ∷ bs else [] in if has_byte dot bs then rest else here

-- strings.ToLower, as far as a comparison with an extension of the table can tell: the one
-- character besides A to Z whose lower case is a letter of those is U+0130, which is two bytes.
unfoldable pub lower : Bytes → Bytes
lower [] = []
lower (b ∷ []) = (if leb b'A' b && leb b b'Z' then b + 32 else b) ∷ []
lower (b ∷ c ∷ bs) =
    let plain = (if leb b'A' b && leb b b'Z' then b + 32 else b) ∷ lower (c ∷ bs) in
    let dotted = b'i' ∷ lower bs in if b == 0xc4 && c == 0xb0 then dotted else plain

-- What `contentType` makes of the map's answer.
abbrev pub type_or_default : Option Bytes → Bytes
type_or_default (some t) = t
type_or_default none = codes "application/octet-stream"

unfoldable pub content_type : Bytes → Bytes
unfolding lookup_type extension lower
content_type name = type_or_default (lookup_type (lower (extension name)) content_types)

lookup_type-All :
    (P : Bytes → Type 0) (ext : Bytes) (m : List (Bytes × Bytes)) {t : Bytes}
    → All (λ p. P p.1) m
    → lookup_type ext m ≡ some t
    → P t
unfolding lookup_type
lookup_type-All P ext [] h e = absurd (ground arith)
lookup_type-All P ext ((x, y) ∷ m) {t} (h, hs) e = elim (Bool-cases (bytes_eq x ext)) [
  | inl same ↦ let is : y ≡ t = ground arith in rw (← is) h
  | inr other ↦ lookup_type-All P ext m hs (rw other at e)
]

length-type_or_default :
    (o : Option Bytes)
    → ((t : Bytes) → o ≡ some t → length t ≤ 255)
    → length (type_or_default o) ≤ 255
length-type_or_default (some t) h = h t refl
length-type_or_default none h = omega arith

-- Every content type is short enough for a header.
pub length-content_type : (name : Bytes) → length (content_type name) ≤ 255
unfolding content_type
length-content_type name =
    length-type_or_default (lookup_type (lower (extension name)) content_types) (λ t found.
      lookup_type-All (λ x. length x ≤ 255) (lower (extension name)) content_types (omega arith)
        found)
