-- ===== src/TypeTraits/Laws.antt =====
-- The exchange between the service's scalar types and the SQL types.
use amazon_timestream_odbc_d.Base.{◌≡◌, refl, ◌⊎◌, inl, inr, true, some}
use amazon_timestream_odbc_d.TypeTraits.{
  is_sql_type_supported, sql_type_to_binary, binary_to_sql_type, ScalarType, SqlDataType, boolean,
  integer, bigint, double, date, time, timestamp, interval_day_to_second, interval_year_to_month,
  varchar, not_set, unknown, sql_bit, sql_tinyint, sql_smallint, sql_bigint, sql_integer, sql_float,
  sql_real, sql_double, sql_numeric, sql_decimal, sql_char, sql_varchar, sql_longvarchar, sql_wchar,
  sql_wvarchar, sql_wlongvarchar, sql_type_date, sql_type_timestamp, sql_type_time, sql_type_null,
  sql_interval_year_to_month, sql_interval_day_to_second, sql_binary, sql_varbinary,
  sql_longvarbinary, sql_guid, sql_interval_month, sql_interval_year, sql_interval_day,
  sql_interval_hour, sql_interval_minute, sql_interval_second, sql_interval_day_to_hour,
  sql_interval_day_to_minute, sql_interval_hour_to_minute, sql_interval_hour_to_second,
  sql_interval_minute_to_second,
}

-- The scalar types that hold a value.
pub IsValueType : ScalarType → Type 0
IsValueType not_set = ⊥
IsValueType ScalarType.unknown = ⊥
IsValueType (ScalarType.other n) = ⊥
IsValueType _ = Unit {0}

-- A scalar type's SQL type is exchanged back for the scalar type when that holds a value, and
-- for VARCHAR otherwise.
pub sql_type_to_binary-binary_to_sql_type :
    (t : ScalarType)
    → (IsValueType t × (sql_type_to_binary (binary_to_sql_type (some t)) ≡ t))
      ⊎ ((¬ IsValueType t) × (sql_type_to_binary (binary_to_sql_type (some t)) ≡ varchar))
unfolding sql_type_to_binary binary_to_sql_type IsValueType
sql_type_to_binary-binary_to_sql_type boolean = inl (tt, refl)
sql_type_to_binary-binary_to_sql_type integer = inl (tt, refl)
sql_type_to_binary-binary_to_sql_type bigint = inl (tt, refl)
sql_type_to_binary-binary_to_sql_type double = inl (tt, refl)
sql_type_to_binary-binary_to_sql_type date = inl (tt, refl)
sql_type_to_binary-binary_to_sql_type time = inl (tt, refl)
sql_type_to_binary-binary_to_sql_type timestamp = inl (tt, refl)
sql_type_to_binary-binary_to_sql_type interval_day_to_second = inl (tt, refl)
sql_type_to_binary-binary_to_sql_type interval_year_to_month = inl (tt, refl)
sql_type_to_binary-binary_to_sql_type varchar = inl (tt, refl)
sql_type_to_binary-binary_to_sql_type not_set = inr ((λ v. v), refl)
sql_type_to_binary-binary_to_sql_type unknown = inr ((λ v. v), refl)
sql_type_to_binary-binary_to_sql_type (ScalarType.other n) = inr ((λ v. v), refl)

-- An SQL type's scalar type is exchanged back for the SQL type, or it is UNKNOWN and is exchanged
-- for SQL_VARCHAR.
pub binary_to_sql_type-sql_type_to_binary :
    (s : SqlDataType)
    → (binary_to_sql_type (some (sql_type_to_binary (some s))) ≡ some s)
      ⊎ ((sql_type_to_binary (some s) ≡ unknown)
          × (binary_to_sql_type (some (sql_type_to_binary (some s))) ≡ some sql_varchar))
unfolding sql_type_to_binary binary_to_sql_type
binary_to_sql_type-sql_type_to_binary sql_bit = inl refl
binary_to_sql_type-sql_type_to_binary sql_tinyint = inr (refl, refl)
binary_to_sql_type-sql_type_to_binary sql_smallint = inr (refl, refl)
binary_to_sql_type-sql_type_to_binary sql_bigint = inl refl
binary_to_sql_type-sql_type_to_binary sql_integer = inl refl
binary_to_sql_type-sql_type_to_binary sql_float = inr (refl, refl)
binary_to_sql_type-sql_type_to_binary sql_real = inr (refl, refl)
binary_to_sql_type-sql_type_to_binary sql_double = inl refl
binary_to_sql_type-sql_type_to_binary sql_numeric = inr (refl, refl)
binary_to_sql_type-sql_type_to_binary sql_decimal = inr (refl, refl)
binary_to_sql_type-sql_type_to_binary sql_char = inr (refl, refl)
binary_to_sql_type-sql_type_to_binary sql_varchar = inl refl
binary_to_sql_type-sql_type_to_binary sql_longvarchar = inr (refl, refl)
binary_to_sql_type-sql_type_to_binary sql_wchar = inr (refl, refl)
binary_to_sql_type-sql_type_to_binary sql_wvarchar = inr (refl, refl)
binary_to_sql_type-sql_type_to_binary sql_wlongvarchar = inr (refl, refl)
binary_to_sql_type-sql_type_to_binary sql_type_date = inl refl
binary_to_sql_type-sql_type_to_binary sql_type_timestamp = inl refl
binary_to_sql_type-sql_type_to_binary sql_type_time = inl refl
binary_to_sql_type-sql_type_to_binary sql_type_null = inr (refl, refl)
binary_to_sql_type-sql_type_to_binary sql_interval_year_to_month = inl refl
binary_to_sql_type-sql_type_to_binary sql_interval_day_to_second = inl refl
binary_to_sql_type-sql_type_to_binary sql_binary = inr (refl, refl)
binary_to_sql_type-sql_type_to_binary sql_varbinary = inr (refl, refl)
binary_to_sql_type-sql_type_to_binary sql_longvarbinary = inr (refl, refl)
binary_to_sql_type-sql_type_to_binary sql_guid = inr (refl, refl)
binary_to_sql_type-sql_type_to_binary sql_interval_month = inr (refl, refl)
binary_to_sql_type-sql_type_to_binary sql_interval_year = inr (refl, refl)
binary_to_sql_type-sql_type_to_binary sql_interval_day = inr (refl, refl)
binary_to_sql_type-sql_type_to_binary sql_interval_hour = inr (refl, refl)
binary_to_sql_type-sql_type_to_binary sql_interval_minute = inr (refl, refl)
binary_to_sql_type-sql_type_to_binary sql_interval_second = inr (refl, refl)
binary_to_sql_type-sql_type_to_binary sql_interval_day_to_hour = inr (refl, refl)
binary_to_sql_type-sql_type_to_binary sql_interval_day_to_minute = inr (refl, refl)
binary_to_sql_type-sql_type_to_binary sql_interval_hour_to_minute = inr (refl, refl)
binary_to_sql_type-sql_type_to_binary sql_interval_hour_to_second = inr (refl, refl)
binary_to_sql_type-sql_type_to_binary sql_interval_minute_to_second = inr (refl, refl)
binary_to_sql_type-sql_type_to_binary (SqlDataType.other n) = inr (refl, refl)

-- The type that the driver reports for a column is always one that it supports.
pub binary_to_sql_type_supported :
    (t : ScalarType) → is_sql_type_supported (binary_to_sql_type (some t)) ≡ true
unfolding is_sql_type_supported binary_to_sql_type
binary_to_sql_type_supported boolean = refl
binary_to_sql_type_supported integer = refl
binary_to_sql_type_supported bigint = refl
binary_to_sql_type_supported double = refl
binary_to_sql_type_supported date = refl
binary_to_sql_type_supported time = refl
binary_to_sql_type_supported timestamp = refl
binary_to_sql_type_supported interval_day_to_second = refl
binary_to_sql_type_supported interval_year_to_month = refl
binary_to_sql_type_supported varchar = refl
binary_to_sql_type_supported not_set = refl
binary_to_sql_type_supported unknown = refl
binary_to_sql_type_supported (ScalarType.other n) = refl
