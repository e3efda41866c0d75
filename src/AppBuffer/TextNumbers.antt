-- ===== src/AppBuffer/TextNumbers.antt =====
-- The text of an integer is read back as the integer, so a number put as a text is the number put.
use amazon_timestream_odbc_d.Base.{
  pos_part, neg_part, neg_ℕ, ℤ, pos, negsuc, Text, ℕ, zero, suc, ◌+◌, ◌-◌, ◌*◌, ◌/◌, ◌%◌, ◌^◌, ◌≤◌,
  ◌<◌, min, ◌≡◌, refl, ap, ◌∙◌, ◌≢◌, Bool, true, false, some, [], ◌∷◌, ◌++◌, arith,
}
use amazon_timestream_odbc_d.TypeTraits.{
  OdbcNativeType, ai_char, ai_wchar, ai_signed_short, ai_unsigned_short, ai_signed_long,
  ai_unsigned_long, ai_bit, ai_signed_tinyint, ai_unsigned_tinyint, ai_signed_bigint,
  ai_unsigned_bigint, ai_numeric,
}
use amazon_timestream_odbc_d.Config.Texts.{is_digit, all_digits, decimal_from, decimal, drop_while}
use amazon_timestream_odbc_d.AppBuffer.{ApplicationDataBuffer}
use amazon_timestream_odbc_d.AppBuffer.Platform.{Platform}
use amazon_timestream_odbc_d.AppBuffer.Printing.{
  last_digit, digits_upto, digits, print_int, take_while, int64_max, read_int64,
}
use amazon_timestream_odbc_d.AppBuffer.Puts.{put_num, put_string, put_int64}

decimal_from-append :
    (n : ℕ) (s : Text) (c : ℕ) → decimal_from n (s ++ c ∷ []) ≡ decimal_from n s * 10 + (c - 48)
unfolding decimal_from
decimal_from-append n [] c = refl
decimal_from-append n (x ∷ xs) c = decimal_from-append (n * 10 + (x - 48)) xs c

all_digits-append :
    (s : Text) (c : ℕ) → all_digits s ≡ true → is_digit c ≡ true → all_digits (s ++ c ∷ []) ≡ true
unfolding all_digits
all_digits-append [] c h k = ground arith
all_digits-append (x ∷ xs) c h k = ground (arith, all_digits-append xs c)

last_digit-all_digits :
    (q n : ℕ) (rest : Text)
    → n / 10 ≡ q
    → all_digits rest ≡ true
    → all_digits (last_digit q rest n) ≡ true
unfolding all_digits
last_digit-all_digits zero n rest e h = ground arith
last_digit-all_digits (suc q) n rest e h = all_digits-append rest (48 + n % 10) h (ground arith)

digits_upto-all_digits : (left n : ℕ) → all_digits (digits_upto left n) ≡ true
unfolding digits_upto all_digits
digits_upto-all_digits zero n = refl
digits_upto-all_digits (suc left) n =
    last_digit-all_digits (n / 10) n (digits_upto left (n / 10)) refl
      (digits_upto-all_digits left (n / 10))

decimal-last_digit :
    (q n : ℕ) (rest : Text) → n / 10 ≡ q → decimal rest ≡ q → decimal (last_digit q rest n) ≡ n
unfolding decimal decimal_from
decimal-last_digit zero n rest e h = omega arith
decimal-last_digit (suc q) n rest e h = omega (arith, decimal_from-append 0 rest (48 + n % 10))

decimal-digits_upto : (left n : ℕ) → n < 10 ^ left → decimal (digits_upto left n) ≡ n
unfolding digits_upto decimal decimal_from
decimal-digits_upto zero n h = omega arith
decimal-digits_upto (suc left) n h =
    decimal-last_digit (n / 10) n (digits_upto left (n / 10)) refl
      (decimal-digits_upto left (n / 10) (omega arith))

take_while_all : (s : Text) → all_digits s ≡ true → take_while is_digit s ≡ s
unfolding all_digits
take_while_all [] h = refl
take_while_all (c ∷ cs) h = ground (arith, take_while_all cs)

append-cons : (s : Text) (c : ℕ) → s ++ c ∷ [] ≢ []
append-cons [] c e = cc
append-cons (x ∷ xs) c e = cc

last_digit-cons : (q n : ℕ) (rest : Text) → last_digit q rest n ≢ []
last_digit-cons zero n rest e = cc
last_digit-cons (suc q) n rest e = append-cons rest (48 + n % 10) e

digits-cons : (n : ℕ) → digits n ≢ []
unfolding digits_upto
digits-cons n = last_digit-cons (n / 10) n (digits_upto 19 (n / 10))

-- A text of digits is read as its number, where it is in range.
read_all_digits :
    (s : Text)
    → s ≢ []
    → all_digits s ≡ true
    → decimal s ≤ int64_max
    → read_int64 s ≡ some (pos (decimal s))
unfolding read_int64 all_digits drop_while
read_all_digits [] ne h k = absurd (ne refl)
read_all_digits (c ∷ cs) ne h k = ground (arith, take_while_all (c ∷ cs) h)

read_negative :
    (s : Text)
    → all_digits s ≡ true
    → decimal s ≤ suc int64_max
    → read_int64 (45 ∷ s) ≡ some (neg_ℕ (decimal s))
unfolding read_int64 drop_while
read_negative s h k =
    rw (take_while_all s h)
      (ap (λ m. some (neg_ℕ m)) {x = min (decimal s) (suc int64_max)} {y = decimal s} (omega arith))

-- The text of an integer of 64 bits is read back as the integer.
pub read_int64-print_int :
    (z : ℤ)
    → pos_part z ≤ int64_max
    → neg_part z ≤ suc int64_max
    → read_int64 (print_int z) ≡ some z
unfolding print_int
read_int64-print_int (pos n) h k =
    let d = decimal-digits_upto 20 n (omega arith) in
    read_all_digits (digits n) (digits-cons n) (digits_upto-all_digits 20 n) (omega (arith, d))
    ∙ ap (λ m. some (pos m)) d
read_int64-print_int (negsuc n) h k =
    let d = decimal-digits_upto 20 (suc n) (omega arith) in
    read_negative (digits (suc n)) (digits_upto-all_digits 20 (suc n)) (omega (arith, d))
    ∙ ap (λ m. some (neg_ℕ m)) d
    ∙ ap some (ground arith)

-- The types for which a number is an integer or a text.
abbrev pub is_integral : OdbcNativeType → Bool
is_integral ai_signed_tinyint = true
is_integral ai_bit = true
is_integral ai_unsigned_tinyint = true
is_integral ai_signed_short = true
is_integral ai_unsigned_short = true
is_integral ai_signed_long = true
is_integral ai_unsigned_long = true
is_integral ai_signed_bigint = true
is_integral ai_unsigned_bigint = true
is_integral ai_numeric = true
is_integral ai_char = true
is_integral ai_wchar = true
is_integral _ = false

-- For a buffer of an integer type, of the numeric type or of characters, the text of an integer of
-- 64 bits put as a string does what the integer put as a number does.
pub put_string-put_int64 :
    (p : Platform) (b : ApplicationDataBuffer) (z : ℤ)
    → is_integral b.type ≡ true
    → pos_part z ≤ int64_max
    → neg_part z ≤ suc int64_max
    → put_string p b (print_int z) ≡ put_int64 p b z
unfolding put_string put_int64 put_num
put_string-put_int64 p b z ty h k = ground (arith, read_int64-print_int z h k)
