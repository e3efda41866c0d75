-- ===== src/TimestreamColumn/Scanning.antt =====
-- `sscanf` with the conversions %d and %nd, as src/odbc/src/timestream_column.cpp uses it, and StringToInt and
-- StringToLong of src/odbc/src/utility.cpp. An integer too large for an `int`, which has no defined result in
-- `sscanf`, keeps its value here.
use amazon_timestream_odbc_d.Base.{
  ◌==◌, if◌then◌else◌, length, take, drop, is_empty, eqb_ℤ, neg_ℕ, to_signed, ℤ, pos, Text, ℕ, ◌-◌,
  Bool, true, false, Option, none, some, List, [], ◌∷◌,
}
use amazon_timestream_odbc_d.Config.Texts.{is_digit, decimal, is_space, drop_while}
use amazon_timestream_odbc_d.AppBuffer.Printing.{take_while}

-- %d of at most so many characters, a character that must match, and white space.
pub data Directive : Type 0 where
  number : ℕ → Directive
  exactly : ℕ → Directive
  space : Directive

-- The number that a text starts with, and the text after it; the width counts the sign.
abbrev scan_digits : Bool → ℕ → Text → Option (ℤ × Text)
scan_digits negative width s =
    let ds = take_while is_digit (take width s) in
    let n = decimal ds in
    if is_empty ds then none else some (if negative then neg_ℕ n else pos n, drop (length ds) s)

abbrev scan_signed : ℕ → Text → Option (ℤ × Text)
scan_signed width [] = none
scan_signed width (c ∷ cs) =
    if c == 45
    then scan_digits true (width - 1) cs
    else if c == 43
    then scan_digits false (width - 1) cs
    else scan_digits false width (c ∷ cs)

unfoldable pub scan_number : ℕ → Text → Option (ℤ × Text)
scan_number width s = scan_signed width (drop_while is_space s)

-- The numbers that are assigned, up to the first directive that fails.
unfoldable pub scan : List Directive → Text → List ℤ
scan [] s = []
scan (number width ∷ ds) s = elim (scan_number width s) [
  | none ↦ []
  | some (z, rest) ↦ z ∷ scan ds rest
]
scan (exactly c ∷ ds) [] = []
scan (exactly c ∷ ds) (x ∷ xs) = let rest = scan ds xs in if c == x then rest else []
scan (space ∷ ds) s = scan ds (drop_while is_space s)

-- A number out of the range of so many bits, or none, is 0: the exception is caught. The whole
-- text may be read as one number, since a width bounds nothing that is shorter.
abbrev in_range : ℕ → ℤ → ℤ
in_range bits z = if eqb_ℤ (to_signed bits z) z then z else pos 0

unfoldable pub string_to_number : ℕ → Text → ℤ
string_to_number bits s = elim (scan_number (length s) s) [
  | none ↦ pos 0
  | some (z, rest) ↦ in_range bits z
]
