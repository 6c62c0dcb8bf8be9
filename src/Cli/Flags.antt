-- ===== src/Cli/Flags.antt =====
-- Parse of the package flag: the arguments up to the first one that is no flag.
use bhttp_1_http_in_binary.Base.{
  ℕ, Bool, true, false, not, ◌||◌, Option, none, some, List, [], ◌∷◌, Bytes, codes, bytes_eq, ltb,
  ◌==◌, if◌then◌else◌, length, get_or,
}
use bhttp_1_http_in_binary.Cli.Addresses.{cut_first}

-- A flag that needs no value, and one that does.
pub data Kind : Type 0 where
  switch with_value : Kind

-- What one argument is: no flag, the end of the flags, a mistake, a flag that has been set, or one
-- that takes its value from the next argument.
pub data Read (S : Type 0) : Type 0 where
  operand end_of_flags mistake : Read S
  settled : S → Read S
  needs : Bytes → Read S

abbrev minus : ℕ
minus = b'-'

abbrev is_operand : Bytes → Bool
is_operand a = ltb (length a) 2 || not (get_or a 0 0 == minus)

-- The name behind one minus or two.
unfoldable pub flag_text : Bytes → Bytes
flag_text [] = []
flag_text (m ∷ []) = []
flag_text (m ∷ c ∷ cs) = if c == minus then cs else c ∷ cs

abbrev bad_name : Bytes → Bool
bad_name [] = true
bad_name (c ∷ cs) = c == minus || c == b'='

-- `name=value`. The equals sign is not the first character.
abbrev pub named : Bytes → Option (Bytes × Bytes) → Bytes × Option Bytes
named t none = (t, none)
named t (some (name, value)) = (name, some value)

module _ {S : Type 0} (kind : Bytes → Option Kind) (set : Bytes → Bytes → S → Option S) where
  abbrev settle : Option S → Read S
  settle none = mistake
  settle (some s) = settled s

  unfoldable pub read_named : Bytes × Option Bytes → Option Kind → S → Read S
  read_named (name, value) none s = mistake
  read_named (name, none) (some switch) s = settle (set name (codes "true") s)
  read_named (name, some value) (some switch) s = settle (set name value s)
  read_named (name, none) (some with_value) s = needs name
  read_named (name, some value) (some with_value) s = settle (set name value s)

  unfoldable pub read_flag : Bytes → S → Read S
  unfolding read_named flag_text
  read_flag a s =
      let text = flag_text a in
      let parts = named text (cut_first b'=' text) in
      if is_operand a
      then operand
      else if bytes_eq a (codes "--")
      then end_of_flags
      else if bad_name text
      then mistake
      else read_named parts (kind parts.0) s

  -- The settings, and the arguments behind the flags.
  unfoldable pub parse : List Bytes → S → Option (S × List Bytes)
  unfolding read_flag
  parse [] s = some (s, [])
  parse (a ∷ []) s = elim (read_flag a s) [
    | operand ↦ some (s, a ∷ [])
    | end_of_flags ↦ some (s, [])
    | mistake ↦ none
    | settled s' ↦ some (s', [])
    | needs name ↦ none
  ]
  parse (a ∷ b ∷ args) s = elim (read_flag a s) [
    | operand ↦ some (s, a ∷ b ∷ args)
    | end_of_flags ↦ some (s, b ∷ args)
    | mistake ↦ none
    | settled s' ↦ parse (b ∷ args) s'
    | needs name ↦ elim (set name b s) [ none ↦ none | some s' ↦ parse args s' ]
  ]

-- strconv.ParseBool
unfoldable pub parse_bool : Bytes → Option Bool
parse_bool t =
    if bytes_eq t (codes "1")
      || bytes_eq t (codes "t")
      || bytes_eq t (codes "T")
      || bytes_eq t (codes "true")
      || bytes_eq t (codes "TRUE")
      || bytes_eq t (codes "True")
    then some true
    else if bytes_eq t (codes "0")
        || bytes_eq t (codes "f")
        || bytes_eq t (codes "F")
        || bytes_eq t (codes "false")
        || bytes_eq t (codes "FALSE")
        || bytes_eq t (codes "False")
    then some false
    else none
