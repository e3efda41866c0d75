-- ===== src/Descriptor/Codes.antt =====
-- src/odbc/src/descriptor.cpp: the values that InternalSetField takes from a pointer, narrowed by its casts. The numbers
-- of the types and the codes are those of the headers of ODBC.
use amazon_timestream_odbc_d.Base.{to_signed, ℤ, pos, negsuc, ℕ, List, [], ◌∷◌}
use amazon_timestream_odbc_d.Descriptor.{
  value_at, TypeCode, IntervalCode, sql_char, sql_varchar, sql_longvarchar, sql_wchar, sql_wvarchar,
  sql_wlongvarchar, sql_decimal, sql_numeric, sql_smallint, sql_integer, sql_real, sql_float,
  sql_double, sql_bit, sql_tinyint, sql_bigint, sql_type_date, sql_type_time, sql_type_timestamp,
  sql_interval_year, sql_interval_month, sql_interval_day, sql_interval_hour, sql_interval_minute,
  sql_interval_second, sql_interval_year_to_month, sql_interval_day_to_hour,
  sql_interval_day_to_minute, sql_interval_day_to_second, sql_interval_hour_to_minute,
  sql_interval_hour_to_second, sql_interval_minute_to_second, sql_datetime, sql_interval, sql_guid,
  other, no_code, sql_code_date, sql_code_time, sql_code_timestamp, sql_code_day_to_hour,
  sql_code_day_to_minute, sql_code_day_to_second, sql_code_hour, sql_code_hour_to_minute,
  sql_code_hour_to_second, sql_code_minute, sql_code_minute_to_second, sql_code_second,
  sql_code_year_to_month, other_code,
}

abbrev type_numbers : List (ℤ × TypeCode)
type_numbers =
    (pos 1, sql_char)
    ∷ (pos 12, sql_varchar)
    ∷ (negsuc 0, sql_longvarchar)
    ∷ (negsuc 7, sql_wchar)
    ∷ (negsuc 8, sql_wvarchar)
    ∷ (negsuc 9, sql_wlongvarchar)
    ∷ (pos 3, sql_decimal)
    ∷ (pos 2, sql_numeric)
    ∷ (pos 5, sql_smallint)
    ∷ (pos 4, sql_integer)
    ∷ (pos 7, sql_real)
    ∷ (pos 6, sql_float)
    ∷ (pos 8, sql_double)
    ∷ (negsuc 6, sql_bit)
    ∷ (negsuc 5, sql_tinyint)
    ∷ (negsuc 4, sql_bigint)
    ∷ (pos 91, sql_type_date)
    ∷ (pos 92, sql_type_time)
    ∷ (pos 93, sql_type_timestamp)
    ∷ (pos 101, sql_interval_year)
    ∷ (pos 102, sql_interval_month)
    ∷ (pos 103, sql_interval_day)
    ∷ (pos 104, sql_interval_hour)
    ∷ (pos 105, sql_interval_minute)
    ∷ (pos 106, sql_interval_second)
    ∷ (pos 107, sql_interval_year_to_month)
    ∷ (pos 108, sql_interval_day_to_hour)
    ∷ (pos 109, sql_interval_day_to_minute)
    ∷ (pos 110, sql_interval_day_to_second)
    ∷ (pos 111, sql_interval_hour_to_minute)
    ∷ (pos 112, sql_interval_hour_to_second)
    ∷ (pos 113, sql_interval_minute_to_second)
    ∷ (pos 9, sql_datetime)
    ∷ (pos 10, sql_interval)
    ∷ (negsuc 10, sql_guid)
    ∷ []

abbrev code_numbers : List (ℤ × IntervalCode)
code_numbers =
    (pos 0, no_code)
    ∷ (pos 1, sql_code_date)
    ∷ (pos 2, sql_code_time)
    ∷ (pos 3, sql_code_timestamp)
    ∷ (pos 5, sql_code_minute)
    ∷ (pos 6, sql_code_second)
    ∷ (pos 4, sql_code_hour)
    ∷ (pos 7, sql_code_year_to_month)
    ∷ (pos 8, sql_code_day_to_hour)
    ∷ (pos 9, sql_code_day_to_minute)
    ∷ (pos 10, sql_code_day_to_second)
    ∷ (pos 11, sql_code_hour_to_minute)
    ∷ (pos 12, sql_code_hour_to_second)
    ∷ (pos 13, sql_code_minute_to_second)
    ∷ []

unfoldable pub type_of_number : ℤ → TypeCode
type_of_number z = value_at (other z) z type_numbers

unfoldable pub code_of_number : ℤ → IntervalCode
code_of_number z = value_at (other_code z) z code_numbers

-- `static_cast< SQLSMALLINT >(reinterpret_cast< ptrdiff_t >(buffer))`: the low 16 bits of an address.
abbrev pub smallint_at : ℕ → ℤ
smallint_at buffer = to_signed 16 (pos buffer)

unfoldable pub type_at : ℕ → TypeCode
type_at buffer = type_of_number (smallint_at buffer)

unfoldable pub interval_code_at : ℕ → IntervalCode
interval_code_at buffer = code_of_number (smallint_at buffer)

-- `static_cast< SQLINTEGER >(reinterpret_cast< ptrdiff_t >(buffer))`: the low 32 bits.
unfoldable pub integer_at : ℕ → ℤ
integer_at buffer = to_signed 32 (pos buffer)
