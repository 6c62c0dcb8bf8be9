-- ===== src/Cli/Messages.antt =====
-- What the commands print with Fprintf and the verbs %s, %v and %d.
use bhttp_1_http_in_binary.Base.{Bool, true, false, suc, ◌∷◌, ◌++◌, Bytes, codes}
use bhttp_1_http_in_binary.Base.Decimal.{format_int}
use bhttp_1_http_in_binary.Base.Ints.{ℤ, pos, negsuc}

-- "<command>: %v\n"
unfoldable pub error_line : Bytes → Bytes → Bytes
error_line command text = command ++ (codes ": " ++ (text ++ codes "\n"))

-- %d
unfoldable pub format_signed : ℤ → Bytes
format_signed (pos n) = format_int n
format_signed (negsuc n) = b'-' ∷ format_int (suc n)

-- %v
unfoldable pub format_bool : Bool → Bytes
format_bool true = codes "true"
format_bool false = codes "false"
