-- ===== src/TypeTraits/Examples.antt =====
-- The exchanges of types at concrete types.
use amazon_timestream_odbc_d.Base.{◌≡◌, ◌⊎◌, true, false, some}
use amazon_timestream_odbc_d.TypeTraits.{
  is_sql_type_supported, sql_type_to_binary, binary_to_sql_type, bigint, timestamp, varchar,
  sql_bigint, sql_real, sql_double,
}
use amazon_timestream_odbc_d.TypeTraits.Laws.{
  IsValueType, sql_type_to_binary-binary_to_sql_type, binary_to_sql_type_supported,
}
use amazon_timestream_odbc_d.TypeTraits.Sizes.{
  timestream_sql_max_length, sql_type_display_size, sql_type_column_size, sql_type_transfer_length,
  sql_type_precision, sql_type_scale,
}
use amazon_timestream_odbc_d.TypeTraits.SizeLaws.{AtMost, sql_type_sizes, IsGuid, supported_sizes}

sql_type_to_binary-binary_to_sql_type_example :
    (IsValueType bigint × (sql_type_to_binary (binary_to_sql_type (some bigint)) ≡ bigint))
    ⊎ ((¬ IsValueType bigint) × (sql_type_to_binary (binary_to_sql_type (some bigint)) ≡ varchar))
sql_type_to_binary-binary_to_sql_type_example = sql_type_to_binary-binary_to_sql_type bigint

timestamp_is_supported : is_sql_type_supported (binary_to_sql_type (some timestamp)) ≡ true
timestamp_is_supported = binary_to_sql_type_supported timestamp

sql_type_sizes_example :
    AtMost (sql_type_scale (some sql_double)) (sql_type_precision (some sql_double))
    × (AtMost (sql_type_precision (some sql_double)) (sql_type_column_size (some sql_double))
        ⊎ (sql_double ≡ sql_real))
    × AtMost (sql_type_column_size (some sql_double)) (sql_type_display_size (some sql_double))
    × AtMost (sql_type_display_size (some sql_double)) (some timestream_sql_max_length)
sql_type_sizes_example = sql_type_sizes sql_double

sizes_of_bigint :
    ((is_sql_type_supported (some sql_bigint) ≡ true)
      × AtMost (some 1) (sql_type_display_size (some sql_bigint))
      × AtMost (some 1) (sql_type_transfer_length (some sql_bigint)))
    ⊎ ((is_sql_type_supported (some sql_bigint) ≡ false)
        × (IsGuid sql_bigint
            ⊎ ((sql_type_display_size (some sql_bigint) ≡ some 0)
                × (sql_type_column_size (some sql_bigint) ≡ some 0)
                × (sql_type_transfer_length (some sql_bigint) ≡ some 0))))
sizes_of_bigint = supported_sizes sql_bigint
