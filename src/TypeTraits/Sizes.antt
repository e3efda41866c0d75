-- ===== src/TypeTraits/Sizes.antt =====
-- The sizes that src/odbc/src/type_traits.cpp reports for the SQL types: display size, column size,
-- transfer length, precision, scale, radix, decimal digits and octet length, and those of a
-- column of the service. None of the `int32_t` sizes is negative but the decimal digits.
use amazon_timestream_odbc_d.Base.{ℤ, pos, negsuc, ℕ, ◌*◌, Bool, true, false, Option, none, some}
use amazon_timestream_odbc_d.TypeTraits.{
  binary_to_sql_type, ScalarType, SqlDataType, sql_bit, sql_tinyint, sql_smallint, sql_bigint,
  sql_integer, sql_float, sql_real, sql_double, sql_numeric, sql_decimal, sql_char, sql_varchar,
  sql_longvarchar, sql_wchar, sql_wvarchar, sql_wlongvarchar, sql_type_date, sql_type_timestamp,
  sql_type_time, sql_type_null, sql_interval_year_to_month, sql_interval_day_to_second, sql_guid,
}

-- TIMESTREAM_SQL_MAX_LENGTH.
abbrev pub timestream_sql_max_length : ℕ
timestream_sql_max_length = 65532

unfoldable pub sql_type_display_size : Option SqlDataType → Option ℕ
sql_type_display_size none = none
sql_type_display_size (some sql_varchar) = some timestream_sql_max_length
sql_type_display_size (some sql_wvarchar) = some timestream_sql_max_length
sql_type_display_size (some sql_char) = some timestream_sql_max_length
sql_type_display_size (some sql_wchar) = some timestream_sql_max_length
sql_type_display_size (some sql_longvarchar) = some timestream_sql_max_length
sql_type_display_size (some sql_wlongvarchar) = some timestream_sql_max_length
sql_type_display_size (some sql_decimal) = some timestream_sql_max_length
sql_type_display_size (some sql_numeric) = some timestream_sql_max_length
sql_type_display_size (some sql_bit) = some 1
sql_type_display_size (some sql_type_null) = some 1
sql_type_display_size (some sql_tinyint) = some 4
sql_type_display_size (some sql_smallint) = some 6
sql_type_display_size (some sql_integer) = some 11
sql_type_display_size (some sql_bigint) = some 20
sql_type_display_size (some sql_real) = some 14
sql_type_display_size (some sql_float) = some 24
sql_type_display_size (some sql_double) = some 24
sql_type_display_size (some sql_type_date) = some 10
sql_type_display_size (some sql_type_time) = some 8
sql_type_display_size (some sql_type_timestamp) = some 20
sql_type_display_size (some sql_interval_day_to_second) = some 25
sql_type_display_size (some sql_interval_year_to_month) = some 12
sql_type_display_size (some sql_guid) = some 36
sql_type_display_size (some _) = some 0

unfoldable pub sql_type_column_size : Option SqlDataType → Option ℕ
sql_type_column_size none = none
sql_type_column_size (some sql_varchar) = some timestream_sql_max_length
sql_type_column_size (some sql_wvarchar) = some timestream_sql_max_length
sql_type_column_size (some sql_char) = some timestream_sql_max_length
sql_type_column_size (some sql_wchar) = some timestream_sql_max_length
sql_type_column_size (some sql_longvarchar) = some timestream_sql_max_length
sql_type_column_size (some sql_wlongvarchar) = some timestream_sql_max_length
sql_type_column_size (some sql_decimal) = some timestream_sql_max_length
sql_type_column_size (some sql_numeric) = some timestream_sql_max_length
sql_type_column_size (some sql_bit) = some 1
sql_type_column_size (some sql_type_null) = some 1
sql_type_column_size (some sql_tinyint) = some 3
sql_type_column_size (some sql_smallint) = some 5
sql_type_column_size (some sql_integer) = some 10
sql_type_column_size (some sql_bigint) = some 19
sql_type_column_size (some sql_real) = some 7
sql_type_column_size (some sql_float) = some 15
sql_type_column_size (some sql_double) = some 15
sql_type_column_size (some sql_type_date) = some 10
sql_type_column_size (some sql_type_time) = some 8
sql_type_column_size (some sql_type_timestamp) = some 19
sql_type_column_size (some sql_guid) = some 36
sql_type_column_size (some sql_interval_day_to_second) = some 25
sql_type_column_size (some sql_interval_year_to_month) = some 12
sql_type_column_size (some _) = some 0

unfoldable pub sql_type_transfer_length : Option SqlDataType → Option ℕ
sql_type_transfer_length none = none
sql_type_transfer_length (some sql_varchar) = some timestream_sql_max_length
sql_type_transfer_length (some sql_wvarchar) = some timestream_sql_max_length
sql_type_transfer_length (some sql_char) = some timestream_sql_max_length
sql_type_transfer_length (some sql_wchar) = some timestream_sql_max_length
sql_type_transfer_length (some sql_longvarchar) = some timestream_sql_max_length
sql_type_transfer_length (some sql_wlongvarchar) = some timestream_sql_max_length
sql_type_transfer_length (some sql_decimal) = some timestream_sql_max_length
sql_type_transfer_length (some sql_numeric) = some timestream_sql_max_length
sql_type_transfer_length (some sql_bit) = some 1
sql_type_transfer_length (some sql_tinyint) = some 1
sql_type_transfer_length (some sql_type_null) = some 1
sql_type_transfer_length (some sql_smallint) = some 2
sql_type_transfer_length (some sql_integer) = some 4
sql_type_transfer_length (some sql_bigint) = some 8
sql_type_transfer_length (some sql_float) = some 4
sql_type_transfer_length (some sql_real) = some 4
sql_type_transfer_length (some sql_double) = some 8
sql_type_transfer_length (some sql_type_date) = some 6
sql_type_transfer_length (some sql_type_time) = some 6
sql_type_transfer_length (some sql_type_timestamp) = some 16
sql_type_transfer_length (some sql_guid) = some 16
sql_type_transfer_length (some sql_interval_day_to_second) = some 34
sql_type_transfer_length (some sql_interval_year_to_month) = some 34
sql_type_transfer_length (some _) = some 0

unfoldable pub sql_type_precision : Option SqlDataType → Option ℕ
sql_type_precision none = none
sql_type_precision (some sql_decimal) = some 15
sql_type_precision (some sql_numeric) = some 15
sql_type_precision (some sql_tinyint) = some 3
sql_type_precision (some sql_smallint) = some 5
sql_type_precision (some sql_integer) = some 10
sql_type_precision (some sql_bigint) = some 19
sql_type_precision (some sql_float) = some 15
sql_type_precision (some sql_real) = some 15
sql_type_precision (some sql_double) = some 15
sql_type_precision (some sql_type_time) = some 6
sql_type_precision (some sql_interval_day_to_second) = some 11
sql_type_precision (some sql_interval_year_to_month) = some 9
sql_type_precision (some _) = some 0

unfoldable pub sql_type_scale : Option SqlDataType → Option ℕ
sql_type_scale none = none
sql_type_scale (some sql_decimal) = some 15
sql_type_scale (some sql_numeric) = some 15
sql_type_scale (some sql_float) = some 15
sql_type_scale (some sql_real) = some 15
sql_type_scale (some sql_double) = some 15
sql_type_scale (some _) = some 0

unfoldable pub sql_type_num_prec_radix : Option SqlDataType → Option ℕ
sql_type_num_prec_radix none = none
sql_type_num_prec_radix (some sql_real) = some 2
sql_type_num_prec_radix (some sql_float) = some 2
sql_type_num_prec_radix (some sql_double) = some 2
sql_type_num_prec_radix (some sql_bit) = some 10
sql_type_num_prec_radix (some sql_tinyint) = some 10
sql_type_num_prec_radix (some sql_smallint) = some 10
sql_type_num_prec_radix (some sql_integer) = some 10
sql_type_num_prec_radix (some sql_bigint) = some 10
sql_type_num_prec_radix (some _) = some 0

unfoldable pub sql_type_decimal_digits : Option SqlDataType → Option ℤ
sql_type_decimal_digits none = none
sql_type_decimal_digits (some sql_tinyint) = some (pos 0)
sql_type_decimal_digits (some sql_smallint) = some (pos 0)
sql_type_decimal_digits (some sql_integer) = some (pos 0)
sql_type_decimal_digits (some sql_bigint) = some (pos 0)
sql_type_decimal_digits (some sql_double) = some (pos 15)
sql_type_decimal_digits (some _) = some (negsuc 0)

-- `sizeof(SQLWCHAR)` is `wchar_size`.
unfoldable pub sql_type_char_octet_length : ℕ → Option SqlDataType → Option ℕ
sql_type_char_octet_length wchar_size none = none
sql_type_char_octet_length wchar_size (some sql_char) = some timestream_sql_max_length
sql_type_char_octet_length wchar_size (some sql_varchar) = some timestream_sql_max_length
sql_type_char_octet_length wchar_size (some sql_longvarchar) = some timestream_sql_max_length
sql_type_char_octet_length wchar_size (some sql_wchar) =
    some (wchar_size * timestream_sql_max_length)
sql_type_char_octet_length wchar_size (some sql_wvarchar) =
    some (wchar_size * timestream_sql_max_length)
sql_type_char_octet_length wchar_size (some sql_wlongvarchar) =
    some (wchar_size * timestream_sql_max_length)
sql_type_char_octet_length wchar_size (some _) = some 0

unfoldable pub sql_type_unsigned : Option SqlDataType → Bool
sql_type_unsigned none = false
sql_type_unsigned (some sql_bit) = false
sql_type_unsigned (some sql_tinyint) = false
sql_type_unsigned (some sql_smallint) = false
sql_type_unsigned (some sql_integer) = false
sql_type_unsigned (some sql_bigint) = false
sql_type_unsigned (some sql_real) = false
sql_type_unsigned (some sql_float) = false
sql_type_unsigned (some sql_double) = false
sql_type_unsigned (some _) = true

unfoldable pub binary_type_display_size : Option ScalarType → Option ℕ
binary_type_display_size type = sql_type_display_size (binary_to_sql_type type)

unfoldable pub binary_type_column_size : Option ScalarType → Option ℕ
binary_type_column_size type = sql_type_column_size (binary_to_sql_type type)

unfoldable pub binary_type_transfer_length : Option ScalarType → Option ℕ
binary_type_transfer_length type = sql_type_transfer_length (binary_to_sql_type type)

unfoldable pub binary_type_num_prec_radix : Option ScalarType → Option ℕ
binary_type_num_prec_radix type = sql_type_num_prec_radix (binary_to_sql_type type)

unfoldable pub binary_type_decimal_digits : Option ScalarType → Option ℤ
binary_type_decimal_digits type = sql_type_decimal_digits (binary_to_sql_type type)

unfoldable pub binary_type_unsigned : Option ScalarType → Bool
binary_type_unsigned type = sql_type_unsigned (binary_to_sql_type type)

unfoldable pub binary_type_char_octet_length : ℕ → Option ScalarType → Option ℕ
binary_type_char_octet_length wchar_size type =
    sql_type_char_octet_length wchar_size (binary_to_sql_type type)
