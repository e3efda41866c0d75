-- ===== src/TypeTraits/SizeLaws.antt =====
-- How the reported sizes of an SQL type relate.
use amazon_timestream_odbc_d.Base.{
  ℕ, ◌≤◌, ◌≡◌, refl, ◌⊎◌, inl, inr, true, false, Option, some, arith,
}
use amazon_timestream_odbc_d.TypeTraits.{
  is_sql_type_supported, SqlDataType, sql_bit, sql_tinyint, sql_smallint, sql_bigint, sql_integer,
  sql_float, sql_real, sql_double, sql_numeric, sql_decimal, sql_char, sql_varchar, sql_longvarchar,
  sql_wchar, sql_wvarchar, sql_wlongvarchar, sql_type_date, sql_type_timestamp, sql_type_time,
  sql_type_null, sql_interval_year_to_month, sql_interval_day_to_second, sql_binary, sql_varbinary,
  sql_longvarbinary, sql_guid, sql_interval_month, sql_interval_year, sql_interval_day,
  sql_interval_hour, sql_interval_minute, sql_interval_second, sql_interval_day_to_hour,
  sql_interval_day_to_minute, sql_interval_hour_to_minute, sql_interval_hour_to_second,
  sql_interval_minute_to_second,
}
use amazon_timestream_odbc_d.TypeTraits.Sizes.{
  timestream_sql_max_length, sql_type_display_size, sql_type_column_size, sql_type_transfer_length,
  sql_type_precision, sql_type_scale,
}

-- Both sizes are reported and the first is at most the second.
pub AtMost : Option ℕ → Option ℕ → Type 0
AtMost (some a) (some b) = a ≤ b
AtMost _ _ = ⊥

-- For every SQL type the scale is at most the precision, the precision at most the column size
-- or the type SQL_REAL, and the column size at most the display size, which is at most 65532.
pub sql_type_sizes :
    (s : SqlDataType)
    → AtMost (sql_type_scale (some s)) (sql_type_precision (some s))
      × (AtMost (sql_type_precision (some s)) (sql_type_column_size (some s)) ⊎ (s ≡ sql_real))
      × AtMost (sql_type_column_size (some s)) (sql_type_display_size (some s))
      × AtMost (sql_type_display_size (some s)) (some timestream_sql_max_length)
unfolding AtMost sql_type_scale sql_type_precision sql_type_column_size sql_type_display_size
sql_type_sizes sql_bit = (omega arith, inl (omega arith), omega arith, omega arith)
sql_type_sizes sql_tinyint = (omega arith, inl (omega arith), omega arith, omega arith)
sql_type_sizes sql_smallint = (omega arith, inl (omega arith), omega arith, omega arith)
sql_type_sizes sql_bigint = (omega arith, inl (omega arith), omega arith, omega arith)
sql_type_sizes sql_integer = (omega arith, inl (omega arith), omega arith, omega arith)
sql_type_sizes sql_float = (omega arith, inl (omega arith), omega arith, omega arith)
sql_type_sizes sql_real = (omega arith, inr refl, omega arith, omega arith)
sql_type_sizes sql_double = (omega arith, inl (omega arith), omega arith, omega arith)
sql_type_sizes sql_numeric = (omega arith, inl (omega arith), omega arith, omega arith)
sql_type_sizes sql_decimal = (omega arith, inl (omega arith), omega arith, omega arith)
sql_type_sizes sql_char = (omega arith, inl (omega arith), omega arith, omega arith)
sql_type_sizes sql_varchar = (omega arith, inl (omega arith), omega arith, omega arith)
sql_type_sizes sql_longvarchar = (omega arith, inl (omega arith), omega arith, omega arith)
sql_type_sizes sql_wchar = (omega arith, inl (omega arith), omega arith, omega arith)
sql_type_sizes sql_wvarchar = (omega arith, inl (omega arith), omega arith, omega arith)
sql_type_sizes sql_wlongvarchar = (omega arith, inl (omega arith), omega arith, omega arith)
sql_type_sizes sql_type_date = (omega arith, inl (omega arith), omega arith, omega arith)
sql_type_sizes sql_type_timestamp = (omega arith, inl (omega arith), omega arith, omega arith)
sql_type_sizes sql_type_time = (omega arith, inl (omega arith), omega arith, omega arith)
sql_type_sizes sql_type_null = (omega arith, inl (omega arith), omega arith, omega arith)
sql_type_sizes sql_interval_year_to_month =
    (omega arith, inl (omega arith), omega arith, omega arith)
sql_type_sizes sql_interval_day_to_second =
    (omega arith, inl (omega arith), omega arith, omega arith)
sql_type_sizes sql_binary = (omega arith, inl (omega arith), omega arith, omega arith)
sql_type_sizes sql_varbinary = (omega arith, inl (omega arith), omega arith, omega arith)
sql_type_sizes sql_longvarbinary = (omega arith, inl (omega arith), omega arith, omega arith)
sql_type_sizes sql_guid = (omega arith, inl (omega arith), omega arith, omega arith)
sql_type_sizes sql_interval_month = (omega arith, inl (omega arith), omega arith, omega arith)
sql_type_sizes sql_interval_year = (omega arith, inl (omega arith), omega arith, omega arith)
sql_type_sizes sql_interval_day = (omega arith, inl (omega arith), omega arith, omega arith)
sql_type_sizes sql_interval_hour = (omega arith, inl (omega arith), omega arith, omega arith)
sql_type_sizes sql_interval_minute = (omega arith, inl (omega arith), omega arith, omega arith)
sql_type_sizes sql_interval_second = (omega arith, inl (omega arith), omega arith, omega arith)
sql_type_sizes sql_interval_day_to_hour = (omega arith, inl (omega arith), omega arith, omega arith)
sql_type_sizes sql_interval_day_to_minute =
    (omega arith, inl (omega arith), omega arith, omega arith)
sql_type_sizes sql_interval_hour_to_minute =
    (omega arith, inl (omega arith), omega arith, omega arith)
sql_type_sizes sql_interval_hour_to_second =
    (omega arith, inl (omega arith), omega arith, omega arith)
sql_type_sizes sql_interval_minute_to_second =
    (omega arith, inl (omega arith), omega arith, omega arith)
sql_type_sizes (SqlDataType.other n) = (omega arith, inl (omega arith), omega arith, omega arith)

pub IsGuid : SqlDataType → Type 0
IsGuid sql_guid = Unit {0}
IsGuid _ = ⊥

-- A supported SQL type has a display size and a transfer length of at least 1; of the others
-- only SQL_GUID has sizes other than 0.
pub supported_sizes :
    (s : SqlDataType)
    → ((is_sql_type_supported (some s) ≡ true)
        × AtMost (some 1) (sql_type_display_size (some s))
        × AtMost (some 1) (sql_type_transfer_length (some s)))
      ⊎ ((is_sql_type_supported (some s) ≡ false)
          × (IsGuid s
              ⊎ ((sql_type_display_size (some s) ≡ some 0)
                  × (sql_type_column_size (some s) ≡ some 0)
                  × (sql_type_transfer_length (some s) ≡ some 0))))
unfolding AtMost IsGuid is_sql_type_supported sql_type_transfer_length sql_type_column_size
    sql_type_display_size
supported_sizes sql_bit = inl (refl, omega arith, omega arith)
supported_sizes sql_tinyint = inl (refl, omega arith, omega arith)
supported_sizes sql_smallint = inl (refl, omega arith, omega arith)
supported_sizes sql_bigint = inl (refl, omega arith, omega arith)
supported_sizes sql_integer = inl (refl, omega arith, omega arith)
supported_sizes sql_float = inl (refl, omega arith, omega arith)
supported_sizes sql_real = inl (refl, omega arith, omega arith)
supported_sizes sql_double = inl (refl, omega arith, omega arith)
supported_sizes sql_numeric = inl (refl, omega arith, omega arith)
supported_sizes sql_decimal = inl (refl, omega arith, omega arith)
supported_sizes sql_char = inl (refl, omega arith, omega arith)
supported_sizes sql_varchar = inl (refl, omega arith, omega arith)
supported_sizes sql_longvarchar = inl (refl, omega arith, omega arith)
supported_sizes sql_wchar = inl (refl, omega arith, omega arith)
supported_sizes sql_wvarchar = inl (refl, omega arith, omega arith)
supported_sizes sql_wlongvarchar = inl (refl, omega arith, omega arith)
supported_sizes sql_type_date = inl (refl, omega arith, omega arith)
supported_sizes sql_type_timestamp = inl (refl, omega arith, omega arith)
supported_sizes sql_type_time = inl (refl, omega arith, omega arith)
supported_sizes sql_type_null = inl (refl, omega arith, omega arith)
supported_sizes sql_interval_year_to_month = inl (refl, omega arith, omega arith)
supported_sizes sql_interval_day_to_second = inl (refl, omega arith, omega arith)
supported_sizes sql_binary = inr (refl, inr (refl, refl, refl))
supported_sizes sql_varbinary = inr (refl, inr (refl, refl, refl))
supported_sizes sql_longvarbinary = inr (refl, inr (refl, refl, refl))
supported_sizes sql_guid = inr (refl, inl tt)
supported_sizes sql_interval_month = inr (refl, inr (refl, refl, refl))
supported_sizes sql_interval_year = inr (refl, inr (refl, refl, refl))
supported_sizes sql_interval_day = inr (refl, inr (refl, refl, refl))
supported_sizes sql_interval_hour = inr (refl, inr (refl, refl, refl))
supported_sizes sql_interval_minute = inr (refl, inr (refl, refl, refl))
supported_sizes sql_interval_second = inr (refl, inr (refl, refl, refl))
supported_sizes sql_interval_day_to_hour = inr (refl, inr (refl, refl, refl))
supported_sizes sql_interval_day_to_minute = inr (refl, inr (refl, refl, refl))
supported_sizes sql_interval_hour_to_minute = inr (refl, inr (refl, refl, refl))
supported_sizes sql_interval_hour_to_second = inr (refl, inr (refl, refl, refl))
supported_sizes sql_interval_minute_to_second = inr (refl, inr (refl, refl, refl))
supported_sizes (SqlDataType.other n) = inr (refl, inr (refl, refl, refl))
