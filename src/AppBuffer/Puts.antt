-- ===== src/AppBuffer/Puts.antt =====
-- src/odbc/src/app/application_data_buffer.cpp: numbers, strings, raw bytes, decimals and nulls put in a buffer.
use amazon_timestream_odbc_d.Base.{
  ltb, ◌==◌, if◌then◌else◌, length, take, replicate, ltb_ℤ, magnitude, to_signed, to_unsigned, ℤ,
  pos, negsuc, Text, ℕ, zero, suc, ◌*◌, ◌/◌, ◌%◌, min, Bool, true, false, Option, none, some, List,
  [], ◌∷◌, ◌++◌,
}
use mathlib.Core.List.{reverse}
use amazon_timestream_odbc_d.TypeTraits.{
  ai_char, ai_wchar, ai_signed_short, ai_unsigned_short, ai_signed_long, ai_unsigned_long, ai_float,
  ai_double, ai_bit, ai_signed_tinyint, ai_unsigned_tinyint, ai_signed_bigint, ai_unsigned_bigint,
  ai_binary, ai_tdate, ai_ttime, ai_ttimestamp, ai_numeric, ai_default,
}
use amazon_timestream_odbc_d.Cursor.{
  success, varlen_data_truncated, fractional_truncated, indicator_needed,
}
use amazon_timestream_odbc_d.Values.{time_of_ms, timestamp_of_ms}
use amazon_timestream_odbc_d.AppBuffer.{get_data, get_res_len, ApplicationDataBuffer}
use amazon_timestream_odbc_d.AppBuffer.Platform.{Platform}
use amazon_timestream_odbc_d.AppBuffer.Printing.{print_int, read_int64}
use amazon_timestream_odbc_d.AppBuffer.Store.{
  through, with_value, Numeric, Outcome, raw, number, real, numeric,
}
use amazon_timestream_odbc_d.AppBuffer.Strings.{put_str_to_str_buffer}
use amazon_timestream_odbc_d.AppBuffer.Dates.{
  done, unsupported, put_struct, put_date, put_timestamp, put_time,
}

-- A C number: a signed integer, or the bits of a floating number, with its size in bytes.
pub data Number : Type 0 where
  int : ℕ → ℤ → Number
  float : ℕ → ℕ → Number

-- The bytes of a number from the lowest.
abbrev pub little_endian : ℕ → ℕ → List ℕ
little_endian zero n = []
little_endian (suc left) n = n % 256 ∷ little_endian left (n / 256)

-- `ignite::odbc::common::Decimal`, by what is read of it: the last three are the magnitude, from its highest byte,
-- the sign and the precision of the unscaled value with scale 0.
pub record Decimal : Type 0 where
  pub to_int64 : ℤ
  pub to_double : ℕ
  pub text : Text
  pub magnitude_bytes : List ℕ
  pub sign : ℤ
  pub precision : ℕ

unfoldable pub put_null : ApplicationDataBuffer → Option Outcome
put_null b =
    if get_res_len b == 0
    then some record { result = indicator_needed; stored = none; length_stored = none; after = b }
    else some record { result = success; stored = none; length_stored = some (negsuc 0); after = b }

unfoldable pub put_raw_data_to_buffer : ApplicationDataBuffer → List ℕ → Option Outcome
put_raw_data_to_buffer b data_bytes =
    let to_copy = min b.buflen (length data_bytes) in
    some record {
      result = if ltb to_copy (length data_bytes) then varlen_data_truncated else success;
      stored = if ltb 0 to_copy then through (get_data b) (raw (take to_copy data_bytes)) else none;
      length_stored = through (get_res_len b) (pos (length data_bytes));
      after = b;
    }

module _ (p : Platform) where
  abbrev pub as_integer : Number → ℤ
  as_integer (int size z) = z
  as_integer (float size x) = p.truncate_real size x

  -- `static_cast` to a signed and to an unsigned integer of so many bits.
  abbrev pub cast_signed : ℕ → Number → ℤ
  cast_signed bits v = to_signed bits (as_integer v)

  abbrev pub cast_unsigned : ℕ → Number → ℤ
  cast_unsigned bits v = pos (to_unsigned bits (as_integer v))

  -- `static_cast` to a floating number of so many bytes.
  abbrev pub cast_real : ℕ → Number → ℕ
  cast_real size (int s z) = p.real_of_int size z
  cast_real size (float s x) = p.convert_real s x size

  abbrev pub number_text : Number → Text
  number_text (int size z) = print_int z
  number_text (float size x) = p.real_text size x

  abbrev pub size_of : Number → ℕ
  size_of (int size z) = size
  size_of (float size x) = size

  abbrev pub bytes_of : Number → List ℕ
  bytes_of (int size z) = little_endian size (to_unsigned (8 * size) z)
  bytes_of (float size x) = little_endian size x

  abbrev pub is_negative : Number → Bool
  is_negative (int size z) = ltb_ℤ z (pos 0)
  is_negative (float size x) = p.real_negative size x

  -- The magnitude of a floating number is that of its integer part.
  abbrev pub numeric_of : Number → Numeric
  numeric_of v =
      let uval = to_unsigned 64 (pos (magnitude (as_integer v))) in
      record {
        precision = p.digit_length uval;
        scale = 0;
        sign = if is_negative v then 0 else 1;
        val = little_endian 8 uval ++ replicate 8 0;
      }

  -- The binary copy of a number.
  abbrev put_bytes_of : ApplicationDataBuffer → Number → Option Outcome
  put_bytes_of b v =
      done b (if ltb b.buflen (size_of v) then varlen_data_truncated else success)
        (raw (take (min (size_of v) b.buflen) (bytes_of v))) (size_of v)

  unfoldable pub put_num : ApplicationDataBuffer → Number → Option Outcome
  put_num b v = elim b.type [
    | ai_signed_tinyint ↦ done b success (number 1 (cast_signed 8 v)) 1
    | ai_bit ↦ done b success (number 1 (cast_unsigned 8 v)) 1
    | ai_unsigned_tinyint ↦ done b success (number 1 (cast_unsigned 8 v)) 1
    | ai_signed_short ↦ done b success (number 2 (cast_signed 16 v)) 2
    | ai_unsigned_short ↦ done b success (number 2 (cast_unsigned 16 v)) 2
    | ai_signed_long ↦ done b success (number 4 (cast_signed 32 v)) 4
    | ai_unsigned_long ↦ done b success (number 4 (cast_unsigned 32 v)) 4
    | ai_signed_bigint ↦ done b success (number 8 (cast_signed 64 v)) 8
    | ai_unsigned_bigint ↦ done b success (number 8 (cast_unsigned 64 v)) 8
    | ai_float ↦ done b success (real 4 (cast_real 4 v)) 4
    | ai_double ↦ done b success (real 8 (cast_real 8 v)) 8
    | ai_char ↦ put_str_to_str_buffer p b false (number_text v)
    | ai_wchar ↦ put_str_to_str_buffer p b true (number_text v)
    | ai_numeric ↦ done b success (numeric (numeric_of v)) 19
    | ai_binary ↦ put_bytes_of b v
    | ai_default ↦ put_bytes_of b v
    | ai_tdate ↦ put_date p b (p.date_seconds (cast_signed 64 v))
    | ai_ttimestamp ↦ put_timestamp p b (timestamp_of_ms (cast_signed 64 v))
    | ai_ttime ↦ put_time p b (time_of_ms (cast_signed 64 v))
    | _ ↦ unsupported b
  ]

  -- A text of which no number is read leaves an `int64_t` or a `double` without a value.
  abbrev pub put_read_int64 : ApplicationDataBuffer → Text → Option Outcome
  put_read_int64 b value = with_value (read_int64 value) (λ z. put_num b (int 8 z))

  abbrev pub put_read_double : ApplicationDataBuffer → Text → Option Outcome
  put_read_double b value = with_value (p.read_double value) (λ x. put_num b (float 8 x))

  unfoldable pub put_string : ApplicationDataBuffer → Text → Option Outcome
  put_string b value = elim b.type [
    | ai_signed_tinyint ↦ put_read_int64 b value
    | ai_bit ↦ put_read_int64 b value
    | ai_unsigned_tinyint ↦ put_read_int64 b value
    | ai_signed_short ↦ put_read_int64 b value
    | ai_unsigned_short ↦ put_read_int64 b value
    | ai_signed_long ↦ put_read_int64 b value
    | ai_unsigned_long ↦ put_read_int64 b value
    | ai_signed_bigint ↦ put_read_int64 b value
    | ai_unsigned_bigint ↦ put_read_int64 b value
    | ai_numeric ↦ put_read_int64 b value
    | ai_float ↦ put_read_double b value
    | ai_double ↦ put_read_double b value
    | ai_char ↦ put_str_to_str_buffer p b false value
    | ai_binary ↦ put_str_to_str_buffer p b false value
    | ai_default ↦ put_str_to_str_buffer p b false value
    | ai_wchar ↦ put_str_to_str_buffer p b true value
    | _ ↦ unsupported b
  ]

  unfoldable pub put_int8 : ApplicationDataBuffer → ℤ → Option Outcome
  put_int8 b z = put_num b (int 1 z)

  unfoldable pub put_int16 : ApplicationDataBuffer → ℤ → Option Outcome
  put_int16 b z = put_num b (int 2 z)

  unfoldable pub put_int32 : ApplicationDataBuffer → ℤ → Option Outcome
  put_int32 b z = put_num b (int 4 z)

  unfoldable pub put_int64 : ApplicationDataBuffer → ℤ → Option Outcome
  put_int64 b z = put_num b (int 8 z)

  unfoldable pub put_float : ApplicationDataBuffer → ℕ → Option Outcome
  put_float b x = put_num b (float 4 x)

  unfoldable pub put_double : ApplicationDataBuffer → ℕ → Option Outcome
  put_double b x = put_num b (float 8 x)

  -- The overloads over an optional value.
  unfoldable pub put_optional :
      {A : Type 0}
      → (ApplicationDataBuffer → A → Option Outcome)
      → ApplicationDataBuffer
      → Option A
      → Option Outcome
  put_optional put b none = put_null b
  put_optional put b (some a) = put b a

  -- The result of a decimal put as a number is replaced.
  abbrev with_fraction_lost : Option Outcome → Option Outcome
  with_fraction_lost none = none
  with_fraction_lost (some o) = some record o { result = fractional_truncated }

  -- The sixteen lowest bytes of the magnitude, filled up by zeros.
  abbrev pub decimal_numeric : Decimal → Numeric
  decimal_numeric v = record {
    precision = v.precision;
    scale = 0;
    sign = if ltb_ℤ v.sign (pos 0) then 0 else 1;
    val = take 16 (reverse v.magnitude_bytes ++ replicate 16 0);
  }

  unfoldable pub put_decimal : ApplicationDataBuffer → Decimal → Option Outcome
  put_decimal b v = elim b.type [
    | ai_signed_tinyint ↦ with_fraction_lost (put_int64 b v.to_int64)
    | ai_bit ↦ with_fraction_lost (put_int64 b v.to_int64)
    | ai_unsigned_tinyint ↦ with_fraction_lost (put_int64 b v.to_int64)
    | ai_signed_short ↦ with_fraction_lost (put_int64 b v.to_int64)
    | ai_unsigned_short ↦ with_fraction_lost (put_int64 b v.to_int64)
    | ai_signed_long ↦ with_fraction_lost (put_int64 b v.to_int64)
    | ai_unsigned_long ↦ with_fraction_lost (put_int64 b v.to_int64)
    | ai_signed_bigint ↦ with_fraction_lost (put_int64 b v.to_int64)
    | ai_unsigned_bigint ↦ with_fraction_lost (put_int64 b v.to_int64)
    | ai_float ↦ with_fraction_lost (put_double b v.to_double)
    | ai_double ↦ with_fraction_lost (put_double b v.to_double)
    | ai_char ↦ put_string b v.text
    | ai_wchar ↦ put_string b v.text
    | ai_numeric ↦
        put_struct b (if ltb 16 (length v.magnitude_bytes) then fractional_truncated else success)
          (numeric (decimal_numeric v)) 19
    | _ ↦ unsupported b
  ]
