-- ===== src/Descriptor/Types.antt =====
-- src/odbc/src/descriptor.cpp: the tests of the codes of types and intervals, and their texts.
use amazon_timestream_odbc_d.Base.{Text, bytes, Bool, true, false}
use amazon_timestream_odbc_d.AppBuffer.Printing.{print_int}
use amazon_timestream_odbc_d.Descriptor.{
  TypeCode, IntervalCode, sql_char, sql_varchar, sql_longvarchar, sql_wchar, sql_wvarchar,
  sql_wlongvarchar, sql_decimal, sql_numeric, sql_smallint, sql_integer, sql_real, sql_float,
  sql_double, sql_bit, sql_tinyint, sql_bigint, sql_type_date, sql_type_time, sql_type_timestamp,
  sql_interval_year, sql_interval_month, sql_interval_day, sql_interval_hour, sql_interval_minute,
  sql_interval_second, sql_interval_year_to_month, sql_interval_day_to_hour,
  sql_interval_day_to_minute, sql_interval_day_to_second, sql_interval_hour_to_minute,
  sql_interval_hour_to_second, sql_interval_minute_to_second, sql_datetime, sql_interval, sql_guid,
  other, no_code, sql_code_date, sql_code_time, sql_code_timestamp, sql_code_day_to_hour,
  sql_code_day_to_minute, sql_code_day_to_second, sql_code_hour, sql_code_hour_to_minute,
  sql_code_hour_to_second, sql_code_minute, sql_code_minute_to_second, sql_code_second,
  sql_code_year_to_month, other_code,
}

unfoldable pub is_valid_concise_type : TypeCode → Bool
is_valid_concise_type sql_char = true
is_valid_concise_type sql_varchar = true
is_valid_concise_type sql_longvarchar = true
is_valid_concise_type sql_wchar = true
is_valid_concise_type sql_wvarchar = true
is_valid_concise_type sql_wlongvarchar = true
is_valid_concise_type sql_decimal = true
is_valid_concise_type sql_numeric = true
is_valid_concise_type sql_smallint = true
is_valid_concise_type sql_integer = true
is_valid_concise_type sql_real = true
is_valid_concise_type sql_float = true
is_valid_concise_type sql_double = true
is_valid_concise_type sql_bit = true
is_valid_concise_type sql_tinyint = true
is_valid_concise_type sql_bigint = true
is_valid_concise_type sql_type_date = true
is_valid_concise_type sql_type_time = true
is_valid_concise_type sql_type_timestamp = true
is_valid_concise_type sql_interval_year_to_month = true
is_valid_concise_type sql_interval_day_to_second = true
is_valid_concise_type _ = false

unfoldable pub is_valid_type : TypeCode → Bool
is_valid_type sql_char = true
is_valid_type sql_varchar = true
is_valid_type sql_longvarchar = true
is_valid_type sql_wchar = true
is_valid_type sql_wvarchar = true
is_valid_type sql_wlongvarchar = true
is_valid_type sql_decimal = true
is_valid_type sql_numeric = true
is_valid_type sql_smallint = true
is_valid_type sql_integer = true
is_valid_type sql_real = true
is_valid_type sql_float = true
is_valid_type sql_double = true
is_valid_type sql_bit = true
is_valid_type sql_tinyint = true
is_valid_type sql_bigint = true
is_valid_type sql_datetime = true
is_valid_type sql_interval = true
is_valid_type _ = false

unfoldable pub is_valid_interval_code : TypeCode → IntervalCode → Bool
is_valid_interval_code sql_datetime sql_code_date = true
is_valid_interval_code sql_datetime sql_code_time = true
is_valid_interval_code sql_datetime sql_code_timestamp = true
is_valid_interval_code sql_interval sql_code_year_to_month = true
is_valid_interval_code sql_interval sql_code_day_to_second = true
is_valid_interval_code _ _ = false

abbrev pub sql_type_to_string : TypeCode → Text
sql_type_to_string sql_char = bytes "SQL_CHAR"
sql_type_to_string sql_varchar = bytes "SQL_VARCHAR"
sql_type_to_string sql_longvarchar = bytes "SQL_LONGVARCHAR"
sql_type_to_string sql_wchar = bytes "SQL_WCHAR"
sql_type_to_string sql_wvarchar = bytes "SQL_WVARCHAR"
sql_type_to_string sql_wlongvarchar = bytes "SQL_WLONGVARCHAR"
sql_type_to_string sql_decimal = bytes "SQL_DECIMAL"
sql_type_to_string sql_numeric = bytes "SQL_NUMERIC"
sql_type_to_string sql_smallint = bytes "SQL_SMALLINT"
sql_type_to_string sql_integer = bytes "SQL_INTEGER"
sql_type_to_string sql_real = bytes "SQL_REAL"
sql_type_to_string sql_float = bytes "SQL_FLOAT"
sql_type_to_string sql_double = bytes "SQL_DOUBLE"
sql_type_to_string sql_bit = bytes "SQL_BIT"
sql_type_to_string sql_tinyint = bytes "SQL_TINYINT"
sql_type_to_string sql_bigint = bytes "SQL_BIGINT"
sql_type_to_string sql_type_date = bytes "SQL_TYPE_DATE"
sql_type_to_string sql_type_time = bytes "SQL_TYPE_TIME"
sql_type_to_string sql_type_timestamp = bytes "SQL_TYPE_TIMESTAMP"
sql_type_to_string sql_interval_year = bytes "SQL_INTERVAL_YEAR"
sql_type_to_string sql_interval_month = bytes "SQL_INTERVAL_MONTH"
sql_type_to_string sql_interval_day = bytes "SQL_INTERVAL_DAY"
sql_type_to_string sql_interval_hour = bytes "SQL_INTERVAL_HOUR"
sql_type_to_string sql_interval_minute = bytes "SQL_INTERVAL_MINUTE"
sql_type_to_string sql_interval_second = bytes "SQL_INTERVAL_SECOND"
sql_type_to_string sql_interval_year_to_month = bytes "SQL_INTERVAL_YEAR_TO_MONTH"
sql_type_to_string sql_interval_day_to_hour = bytes "SQL_INTERVAL_DAY_TO_HOUR"
sql_type_to_string sql_interval_day_to_minute = bytes "SQL_INTERVAL_DAY_TO_MINUTE"
sql_type_to_string sql_interval_day_to_second = bytes "SQL_INTERVAL_DAY_TO_SECOND"
sql_type_to_string sql_interval_hour_to_minute = bytes "SQL_INTERVAL_HOUR_TO_MINUTE"
sql_type_to_string sql_interval_hour_to_second = bytes "SQL_INTERVAL_HOUR_TO_SECOND"
sql_type_to_string sql_interval_minute_to_second = bytes "SQL_INTERVAL_MINUTE_TO_SECOND"
sql_type_to_string sql_datetime = bytes "SQL_DATETIME"
sql_type_to_string sql_interval = bytes "SQL_INTERVAL"
sql_type_to_string sql_guid = bytes "SQL_GUID"
sql_type_to_string (other z) = print_int z

abbrev pub interval_code_to_string : IntervalCode → Text
interval_code_to_string sql_code_date = bytes "SQL_CODE_DATE"
interval_code_to_string sql_code_time = bytes "SQL_CODE_TIME"
interval_code_to_string sql_code_timestamp = bytes "SQL_CODE_TIMESTAMP"
interval_code_to_string sql_code_day_to_hour = bytes "SQL_CODE_DAY_TO_HOUR"
interval_code_to_string sql_code_day_to_minute = bytes "SQL_CODE_DAY_TO_MINUTE"
interval_code_to_string sql_code_day_to_second = bytes "SQL_CODE_DAY_TO_SECOND"
interval_code_to_string sql_code_hour = bytes "SQL_CODE_HOUR"
interval_code_to_string sql_code_hour_to_minute = bytes "SQL_CODE_HOUR_TO_MINUTE"
interval_code_to_string sql_code_hour_to_second = bytes "SQL_CODE_HOUR_TO_SECOND"
interval_code_to_string sql_code_minute = bytes "SQL_CODE_MINUTE"
interval_code_to_string sql_code_minute_to_second = bytes "SQL_CODE_MINUTE_TO_SECOND"
interval_code_to_string sql_code_second = bytes "SQL_CODE_SECOND"
interval_code_to_string sql_code_year_to_month = bytes "SQL_CODE_YEAR_TO_MONTH"
interval_code_to_string no_code = bytes "0"
interval_code_to_string (other_code z) = print_int z
