-- ===== src/TypeTraits.antt =====
-- src/odbc/src/type_traits.cpp and src/odbc/include/timestream/odbc/type_traits.h: the type
-- of a column of the service as a type of SQL, of ODBC and of the driver. `int16_t` codes are the
-- named constants, which are distinct, and `other`.
pub mod Sizes
pub mod Laws
pub mod SizeLaws
mod Examples
use amazon_timestream_odbc_d.Base.{ℤ, Text, bytes, Bool, true, false, not, Option, none, some}

-- `Aws::TimestreamQuery::Model::ScalarType`, as far as the driver names it.
pub data ScalarType : Type 0 where
  boolean integer bigint double date time timestamp interval_day_to_second interval_year_to_month
        varchar not_set unknown :
      ScalarType
  other : ℤ → ScalarType

-- The ODBC codes of the SQL types.
pub data SqlDataType : Type 0 where
  sql_bit sql_tinyint sql_smallint sql_bigint sql_integer sql_float sql_real sql_double sql_numeric
        sql_decimal sql_char sql_varchar sql_longvarchar sql_wchar sql_wvarchar sql_wlongvarchar
        sql_type_date sql_type_timestamp sql_type_time sql_type_null sql_interval_year_to_month
        sql_interval_day_to_second sql_binary sql_varbinary sql_longvarbinary sql_guid
        sql_interval_month sql_interval_year sql_interval_day sql_interval_hour sql_interval_minute
        sql_interval_second sql_interval_day_to_hour sql_interval_day_to_minute
        sql_interval_hour_to_minute sql_interval_hour_to_second sql_interval_minute_to_second :
      SqlDataType
  other : ℤ → SqlDataType

-- The ODBC codes of the types of an application's buffer.
pub data CType : Type 0 where
  sql_c_char sql_c_wchar sql_c_sshort sql_c_short sql_c_ushort sql_c_slong sql_c_long sql_c_ulong
        sql_c_float sql_c_double sql_c_bit sql_c_stinyint sql_c_tinyint sql_c_utinyint sql_c_sbigint
        sql_c_ubigint sql_c_binary sql_c_date sql_c_type_date sql_c_time sql_c_type_time
        sql_c_timestamp sql_c_type_timestamp sql_c_numeric sql_c_default sql_c_interval_year
        sql_c_interval_month sql_c_interval_day sql_c_interval_hour sql_c_interval_minute
        sql_c_interval_second sql_c_interval_day_to_hour sql_c_interval_day_to_minute
        sql_c_interval_hour_to_minute sql_c_interval_hour_to_second sql_c_interval_minute_to_second
        sql_c_interval_year_to_month sql_c_interval_day_to_second :
      CType
  other : ℤ → CType

-- `OdbcNativeType::Type`.
pub data OdbcNativeType : Type 0 where
  ai_char ai_wchar ai_signed_short ai_unsigned_short ai_signed_long ai_unsigned_long ai_float
        ai_double ai_bit ai_signed_tinyint ai_unsigned_tinyint ai_signed_bigint ai_unsigned_bigint
        ai_binary ai_tdate ai_ttime ai_ttimestamp ai_numeric ai_interval_year ai_interval_month
        ai_interval_day ai_interval_hour ai_interval_minute ai_interval_second
        ai_interval_day_to_hour ai_interval_day_to_minute ai_interval_hour_to_minute
        ai_interval_hour_to_second ai_interval_minute_to_second ai_interval_year_to_month
        ai_interval_day_to_second ai_default ai_unsupported :
      OdbcNativeType

-- The codes of a column's nullability.
pub data Nullability : Type 0 where
  sql_no_nulls sql_nullable sql_nullable_unknown : Nullability
  other : ℤ → Nullability

unfoldable pub binary_type_to_sql_type_name : Option ScalarType → Option Text
binary_type_to_sql_type_name none = none
binary_type_to_sql_type_name (some boolean) = some (bytes "BIT")
binary_type_to_sql_type_name (some integer) = some (bytes "INTEGER")
binary_type_to_sql_type_name (some bigint) = some (bytes "BIGINT")
binary_type_to_sql_type_name (some double) = some (bytes "DOUBLE")
binary_type_to_sql_type_name (some date) = some (bytes "DATE")
binary_type_to_sql_type_name (some time) = some (bytes "TIME")
binary_type_to_sql_type_name (some timestamp) = some (bytes "TIMESTAMP")
binary_type_to_sql_type_name (some interval_day_to_second) = some (bytes "INTERVAL_DAY_TO_SECOND")
binary_type_to_sql_type_name (some interval_year_to_month) = some (bytes "INTERVAL_YEAR_TO_MONTH")
binary_type_to_sql_type_name (some varchar) = some (bytes "VARCHAR")
binary_type_to_sql_type_name (some not_set) = some (bytes "NOT_SET")
binary_type_to_sql_type_name (some unknown) = some (bytes "UNKNOWN")
binary_type_to_sql_type_name (some _) = some (bytes "VARCHAR")

pub is_sql_type_supported : Option SqlDataType → Bool
is_sql_type_supported none = false
is_sql_type_supported (some sql_bit) = true
is_sql_type_supported (some sql_tinyint) = true
is_sql_type_supported (some sql_smallint) = true
is_sql_type_supported (some sql_bigint) = true
is_sql_type_supported (some sql_integer) = true
is_sql_type_supported (some sql_float) = true
is_sql_type_supported (some sql_real) = true
is_sql_type_supported (some sql_double) = true
is_sql_type_supported (some sql_numeric) = true
is_sql_type_supported (some sql_decimal) = true
is_sql_type_supported (some sql_char) = true
is_sql_type_supported (some sql_varchar) = true
is_sql_type_supported (some sql_longvarchar) = true
is_sql_type_supported (some sql_wchar) = true
is_sql_type_supported (some sql_wvarchar) = true
is_sql_type_supported (some sql_wlongvarchar) = true
is_sql_type_supported (some sql_type_date) = true
is_sql_type_supported (some sql_type_timestamp) = true
is_sql_type_supported (some sql_type_time) = true
is_sql_type_supported (some sql_type_null) = true
is_sql_type_supported (some sql_interval_year_to_month) = true
is_sql_type_supported (some sql_interval_day_to_second) = true
is_sql_type_supported (some _) = false

pub sql_type_to_binary : Option SqlDataType → ScalarType
sql_type_to_binary none = unknown
sql_type_to_binary (some sql_bit) = boolean
sql_type_to_binary (some sql_integer) = integer
sql_type_to_binary (some sql_bigint) = bigint
sql_type_to_binary (some sql_double) = double
sql_type_to_binary (some sql_type_date) = date
sql_type_to_binary (some sql_type_time) = time
sql_type_to_binary (some sql_type_timestamp) = timestamp
sql_type_to_binary (some sql_interval_day_to_second) = interval_day_to_second
sql_type_to_binary (some sql_interval_year_to_month) = interval_year_to_month
sql_type_to_binary (some sql_varchar) = varchar
sql_type_to_binary (some _) = unknown

unfoldable pub to_driver_type : CType → OdbcNativeType
to_driver_type sql_c_char = ai_char
to_driver_type sql_c_wchar = ai_wchar
to_driver_type sql_c_sshort = ai_signed_short
to_driver_type sql_c_short = ai_signed_short
to_driver_type sql_c_ushort = ai_unsigned_short
to_driver_type sql_c_slong = ai_signed_long
to_driver_type sql_c_long = ai_signed_long
to_driver_type sql_c_ulong = ai_unsigned_long
to_driver_type sql_c_float = ai_float
to_driver_type sql_c_double = ai_double
to_driver_type sql_c_bit = ai_bit
to_driver_type sql_c_stinyint = ai_signed_tinyint
to_driver_type sql_c_tinyint = ai_signed_tinyint
to_driver_type sql_c_utinyint = ai_unsigned_tinyint
to_driver_type sql_c_sbigint = ai_signed_bigint
to_driver_type sql_c_ubigint = ai_unsigned_bigint
to_driver_type sql_c_binary = ai_binary
to_driver_type sql_c_date = ai_tdate
to_driver_type sql_c_type_date = ai_tdate
to_driver_type sql_c_time = ai_ttime
to_driver_type sql_c_type_time = ai_ttime
to_driver_type sql_c_timestamp = ai_ttimestamp
to_driver_type sql_c_type_timestamp = ai_ttimestamp
to_driver_type sql_c_numeric = ai_numeric
to_driver_type sql_c_default = ai_default
to_driver_type sql_c_interval_year = ai_interval_year
to_driver_type sql_c_interval_month = ai_interval_month
to_driver_type sql_c_interval_day = ai_interval_day
to_driver_type sql_c_interval_hour = ai_interval_hour
to_driver_type sql_c_interval_minute = ai_interval_minute
to_driver_type sql_c_interval_second = ai_interval_second
to_driver_type sql_c_interval_day_to_hour = ai_interval_day_to_hour
to_driver_type sql_c_interval_day_to_minute = ai_interval_day_to_minute
to_driver_type sql_c_interval_hour_to_minute = ai_interval_hour_to_minute
to_driver_type sql_c_interval_hour_to_second = ai_interval_hour_to_second
to_driver_type sql_c_interval_minute_to_second = ai_interval_minute_to_second
to_driver_type sql_c_interval_year_to_month = ai_interval_year_to_month
to_driver_type sql_c_interval_day_to_second = ai_interval_day_to_second
to_driver_type _ = ai_unsupported

unfoldable pub is_unsupported : OdbcNativeType → Bool
is_unsupported ai_unsupported = true
is_unsupported _ = false

unfoldable pub is_application_type_supported : Option CType → Bool
is_application_type_supported (some type) = not (is_unsupported (to_driver_type type))
is_application_type_supported none = false

pub binary_to_sql_type : Option ScalarType → Option SqlDataType
binary_to_sql_type none = none
binary_to_sql_type (some boolean) = some sql_bit
binary_to_sql_type (some integer) = some sql_integer
binary_to_sql_type (some bigint) = some sql_bigint
binary_to_sql_type (some double) = some sql_double
binary_to_sql_type (some date) = some sql_type_date
binary_to_sql_type (some time) = some sql_type_time
binary_to_sql_type (some timestamp) = some sql_type_timestamp
binary_to_sql_type (some interval_day_to_second) = some sql_interval_day_to_second
binary_to_sql_type (some interval_year_to_month) = some sql_interval_year_to_month
binary_to_sql_type (some _) = some sql_varchar

unfoldable pub binary_type_nullability : Option ScalarType → Nullability
binary_type_nullability _ = sql_nullable_unknown

unfoldable pub nullability_to_is_nullable : Option Nullability → Option Text
nullability_to_is_nullable none = none
nullability_to_is_nullable (some sql_no_nulls) = some (bytes "NO")
nullability_to_is_nullable (some sql_nullable) = some (bytes "YES")
nullability_to_is_nullable (some _) = none
