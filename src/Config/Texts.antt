-- ===== src/Config/Texts.antt =====
-- The operations on texts that the configuration uses: ToLower and AllDigits (src/odbc/src/utils.cpp and
-- its header), Trim (src/odbc/src/utility.cpp), and searches of `std::string`.
use amazon_timestream_odbc_d.Base.{
  leb, ◌==◌, if◌then◌else◌, Text, ℕ, suc, ◌+◌, ◌-◌, ◌*◌, Bool, true, ◌&&◌, ◌||◌, Option, none, some,
  [], ◌∷◌, map,
}

abbrev pub lower : ℕ → ℕ
lower c = if leb 65 c && leb c 90 then c + 32 else c

-- `ToLower`, in the C locale.
unfoldable pub to_lower : Text → Text
to_lower = map lower

abbrev pub is_digit : ℕ → Bool
is_digit c = leb 48 c && leb c 57

unfoldable pub all_digits : Text → Bool
all_digits [] = true
all_digits (c ∷ cs) = is_digit c && all_digits cs

-- The number that a stream reads from a text of digits.
unfoldable pub decimal_from : ℕ → Text → ℕ
decimal_from n [] = n
decimal_from n (c ∷ cs) = decimal_from (n * 10 + (c - 48)) cs

unfoldable pub decimal : Text → ℕ
decimal = decimal_from 0

-- The white space of the regular expressions: space and the codes 9 to 13.
abbrev pub is_space : ℕ → Bool
is_space c = (c == 32) || (leb 9 c && leb c 13)

unfoldable pub drop_while : (ℕ → Bool) → Text → Text
drop_while f [] = []
drop_while f (c ∷ cs) = if f c then drop_while f cs else c ∷ cs

abbrev pub keep_last : (ℕ → Bool) → ℕ → Text → Text
keep_last f c [] = if f c then [] else c ∷ []
keep_last f c (d ∷ ds) = c ∷ d ∷ ds

unfoldable pub drop_last_while : (ℕ → Bool) → Text → Text
drop_last_while f [] = []
drop_last_while f (c ∷ cs) = keep_last f c (drop_last_while f cs)

unfoldable pub trim : Text → Text
trim s = drop_while is_space (drop_last_while is_space s)

-- `std::string::rfind`.
unfoldable pub rfind : ℕ → Text → Option ℕ
rfind c [] = none
rfind c (x ∷ xs) = elim (rfind c xs) [
  | some i ↦ some (suc i)
  | none ↦ if x == c then some 0 else none
]
