-- ===== src/Descriptor.antt =====
-- src/odbc/src/descriptor.cpp and src/odbc/include/timestream/odbc/descriptor.h: the records of a descriptor and its
-- header. A pointer is a number below 2 ^ 64. A code of the ODBC interface is a constructor, where the driver's
-- switches name it, or `other`.
pub mod Types
pub mod Codes
pub mod Operations
pub mod Reading
pub mod Laws
pub mod Calls
pub mod Answers
pub mod RoundTrip
pub mod Examples
use amazon_timestream_odbc_d.Base.{if◌then◌else◌, eqb_ℤ, ℤ, pos, ℕ, Bool, List, [], ◌∷◌}
use amazon_timestream_odbc_d.Diagnostic.Storage.{DiagnosticRecordStorage}

-- The SQL types, verbose and concise.
pub data TypeCode : Type 0 where
  sql_char sql_varchar sql_longvarchar sql_wchar sql_wvarchar sql_wlongvarchar sql_decimal
        sql_numeric sql_smallint sql_integer sql_real sql_float sql_double sql_bit sql_tinyint
        sql_bigint sql_type_date sql_type_time sql_type_timestamp sql_interval_year
        sql_interval_month sql_interval_day sql_interval_hour sql_interval_minute
        sql_interval_second sql_interval_year_to_month sql_interval_day_to_hour
        sql_interval_day_to_minute sql_interval_day_to_second sql_interval_hour_to_minute
        sql_interval_hour_to_second sql_interval_minute_to_second sql_datetime sql_interval
        sql_guid :
      TypeCode
  other : ℤ → TypeCode

-- The codes of dates and intervals; `no_code` is 0.
pub data IntervalCode : Type 0 where
  no_code sql_code_date sql_code_time sql_code_timestamp sql_code_day_to_hour sql_code_day_to_minute
        sql_code_day_to_second sql_code_hour sql_code_hour_to_minute sql_code_hour_to_second
        sql_code_minute sql_code_minute_to_second sql_code_second sql_code_year_to_month :
      IntervalCode
  other_code : ℤ → IntervalCode

pub data DescType : Type 0 where
  ard apd ird ipd unknown : DescType

pub record DescriptorHeader : Type 0 where
  pub alloc_type : ℤ
  pub array_size : ℕ
  pub array_status_ptr : ℕ
  pub bind_offset_ptr : ℕ
  pub bind_type : ℤ
  pub count : ℤ
  pub rowset_size : ℕ
  pub rows_processed_ptr : ℕ

pub record DescriptorRecord : Type 0 where
  pub auto_unique_value : ℤ
  pub base_column_name : ℕ
  pub base_table_name : ℕ
  pub case_sensitive : ℤ
  pub catalog_name : ℕ
  pub concise_type : TypeCode
  pub data_ptr : ℕ
  pub datetime_interval_code : IntervalCode
  pub datetime_interval_precision : ℤ
  pub display_size : ℤ
  pub fixed_prec_scale : ℤ
  pub indicator_ptr : ℕ
  pub label : ℕ
  pub length_of_data : ℕ
  pub literal_prefix : ℕ
  pub literal_suffix : ℕ
  pub local_type_name : ℕ
  pub name : ℕ
  pub nullable : ℤ
  pub num_prec_radix : ℤ
  pub octet_length : ℤ
  pub octet_length_ptr : ℕ
  pub parameter_type : ℤ
  pub precision : ℤ
  pub rowver : ℤ
  pub scale : ℤ
  pub schema_name : ℕ
  pub searchable : ℤ
  pub table_name : ℕ
  pub type : TypeCode
  pub type_name : ℕ
  pub unnamed : ℤ
  pub desc_unsigned : ℤ
  pub updatable : ℤ

-- A record that the map makes: all zero.
abbrev pub new_record : DescriptorRecord
new_record = record {
  auto_unique_value = pos 0;
  base_column_name = 0;
  base_table_name = 0;
  case_sensitive = pos 0;
  catalog_name = 0;
  concise_type = other (pos 0);
  data_ptr = 0;
  datetime_interval_code = no_code;
  datetime_interval_precision = pos 0;
  display_size = pos 0;
  fixed_prec_scale = pos 0;
  indicator_ptr = 0;
  label = 0;
  length_of_data = 0;
  literal_prefix = 0;
  literal_suffix = 0;
  local_type_name = 0;
  name = 0;
  nullable = pos 0;
  num_prec_radix = pos 0;
  octet_length = pos 0;
  octet_length_ptr = 0;
  parameter_type = pos 0;
  precision = pos 0;
  rowver = pos 0;
  scale = pos 0;
  schema_name = 0;
  searchable = pos 0;
  table_name = 0;
  type = other (pos 0);
  type_name = 0;
  unnamed = pos 0;
  desc_unsigned = pos 0;
  updatable = pos 0;
}

-- `records_` by the numbers of the columns; the connection and the statement are the addresses.
pub record Descriptor : Type 0 where
  pub desc_type : DescType
  pub conn : ℕ
  pub stmt : ℕ
  pub header : DescriptorHeader
  pub records : List (ℤ × DescriptorRecord)
  pub diag : DiagnosticRecordStorage

-- The value of a map at a key, and the map with another one there.
module _ {A : Type 0} where
  abbrev pub value_at : A → ℤ → List (ℤ × A) → A
  value_at default k [] = default
  value_at default k ((j, a) ∷ rs) = if eqb_ℤ k j then a else value_at default k rs

  abbrev pub store_at : ℤ → A → List (ℤ × A) → List (ℤ × A)
  store_at k a [] = (k, a) ∷ []
  store_at k a ((j, b) ∷ rs) =
      let rest = store_at k a rs in if eqb_ℤ k j then (j, a) ∷ rs else (j, b) ∷ rest

-- `records_[number]`: a record that is not there is made, and left in the map.
abbrev pub record_of : ℤ → List (ℤ × DescriptorRecord) → DescriptorRecord
record_of = value_at new_record

-- `SQL_DESC_ALLOC_AUTO` is 1 and `SQL_DESC_ALLOC_USER` is 2; binding is by column, 0.
unfoldable pub init_app_head : Bool → DescriptorHeader → DescriptorHeader
init_app_head implicit h = record h {
  alloc_type = if implicit then pos 1 else pos 2;
  array_size = 1;
  array_status_ptr = 0;
  bind_offset_ptr = 0;
  bind_type = pos 0;
  count = pos 0;
}

unfoldable pub init_imp_head : DescriptorHeader → DescriptorHeader
init_imp_head h = record h {
  alloc_type = pos 1;
  array_status_ptr = 0;
  count = pos 0;
  rows_processed_ptr = 0;
}

-- A header of zeros, as `memset` leaves it.
abbrev pub zero_header : DescriptorHeader
zero_header = record {
  alloc_type = pos 0;
  array_size = 0;
  array_status_ptr = 0;
  bind_offset_ptr = 0;
  bind_type = pos 0;
  count = pos 0;
  rowset_size = 0;
  rows_processed_ptr = 0;
}
