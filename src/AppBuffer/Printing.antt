-- ===== src/AppBuffer/Printing.antt =====
-- The texts of numbers that the C and C++ libraries print and read for
-- src/odbc/src/app/application_data_buffer.cpp: `operator<<` and `operator>>` of an integer, and the conversions
-- %d, %0nd and %nd of `snprintf`.
use amazon_timestream_odbc_d.Base.{
  ◌==◌, if◌then◌else◌, length, replicate, neg_ℕ, ℤ, pos, negsuc, Text, ℕ, zero, suc, ◌+◌, ◌-◌, ◌/◌,
  ◌%◌, min, Bool, true, false, Option, none, some, [], ◌∷◌, ◌++◌,
}
use amazon_timestream_odbc_d.Config.Texts.{is_digit, decimal, is_space, drop_while}

-- The last digit of a number after the digits of its tenth, which is given first.
abbrev pub last_digit : ℕ → Text → ℕ → Text
last_digit zero rest n = (48 + n) ∷ []
last_digit (suc m) rest n = rest ++ (48 + n % 10) ∷ []

-- The decimal digits of a number, with at most so many of them.
unfoldable pub digits_upto : ℕ → ℕ → Text
digits_upto zero n = []
digits_upto (suc left) n = last_digit (n / 10) (digits_upto left (n / 10)) n

-- A number of 64 bits has at most 20 digits.
abbrev pub digits : ℕ → Text
digits = digits_upto 20

unfoldable pub print_int : ℤ → Text
print_int (pos n) = digits n
print_int (negsuc n) = 45 ∷ digits (suc n)

-- %0nd: zeros after the sign up to the width.
abbrev pub pad_zeros : ℕ → ℤ → Text
pad_zeros width (pos n) = replicate (width - length (digits n)) 48 ++ digits n
pad_zeros width (negsuc n) =
    45 ∷ (replicate (width - 1 - length (digits (suc n))) 48 ++ digits (suc n))

-- %nd: spaces before the sign up to the width.
abbrev pub pad_spaces : ℕ → ℤ → Text
pad_spaces width z = replicate (width - length (print_int z)) 32 ++ print_int z

abbrev pub take_while : (ℕ → Bool) → Text → Text
take_while f [] = []
take_while f (c ∷ cs) = let rest = take_while f cs in if f c then c ∷ rest else []

abbrev pub int64_max : ℕ
int64_max = 9223372036854775807

-- The sign has been read: without a digit the result is 0, and out of range it is the nearest number.
abbrev read_digits : Bool → Text → ℤ
read_digits false s = pos (min (decimal (take_while is_digit s)) int64_max)
read_digits true s = neg_ℕ (min (decimal (take_while is_digit s)) (suc int64_max))

abbrev read_sign : Text → Option ℤ
read_sign [] = none
read_sign (c ∷ cs) =
    if c == 45
    then some (read_digits true cs)
    else if c == 43
    then some (read_digits false cs)
    else some (read_digits false (c ∷ cs))

-- `operator>>` into an `int64_t`, which a text of white space leaves as it was.
unfoldable pub read_int64 : Text → Option ℤ
read_int64 s = read_sign (drop_while is_space s)
