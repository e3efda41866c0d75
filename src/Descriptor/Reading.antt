-- ===== src/Descriptor/Reading.antt =====
-- src/odbc/src/descriptor.cpp: InternalGetField, with the types of descriptors that have a field. The application's
-- buffer is not null, as the driver takes it to be.
use amazon_timestream_odbc_d.Base.{
  if◌then◌else◌, ℤ, Text, bytes, ℕ, Bool, true, false, ◌||◌, Option, none, some, List, [], ◌∷◌,
  ◌++◌,
}
use amazon_timestream_odbc_d.SqlTypes.{SqlResult, shy000_general_error}
use amazon_timestream_odbc_d.Diagnostic.Storage.{add_status_record}
use amazon_timestream_odbc_d.AppBuffer.Printing.{print_int}
use amazon_timestream_odbc_d.Descriptor.{
  store_at, record_of, TypeCode, IntervalCode, DescType, DescriptorRecord, Descriptor, ard, apd,
  ird, ipd, unknown,
}

pub data FieldId : Type 0 where
  field_alloc_type field_array_size field_array_status_ptr field_bind_offset_ptr field_bind_type
        field_count field_rows_processed_ptr field_auto_unique_value field_base_column_name
        field_base_table_name field_case_sensitive field_catalog_name field_concise_type
        field_data_ptr field_datetime_interval_code field_datetime_interval_precision
        field_display_size field_fixed_prec_scale field_indicator_ptr field_label field_length
        field_literal_prefix field_literal_suffix field_local_type_name field_name field_nullable
        field_num_prec_radix field_octet_length field_octet_length_ptr field_parameter_type
        field_precision field_rowver field_scale field_schema_name field_searchable field_table_name
        field_type field_type_name field_unnamed field_unsigned field_updatable :
      FieldId
  other_id : ℤ → FieldId

-- The value that is written to the application's buffer.
pub data FieldValue : Type 0 where
  signed : ℤ → FieldValue
  unsigned : ℕ → FieldValue
  pointer : ℕ → FieldValue
  type_code : TypeCode → FieldValue
  interval_code : IntervalCode → FieldValue

abbrev pub desc_type_to_string : DescType → Text
desc_type_to_string ard = bytes "ARD"
desc_type_to_string apd = bytes "APD"
desc_type_to_string ird = bytes "IRD"
desc_type_to_string ipd = bytes "IPD"
desc_type_to_string unknown = bytes "UNKNOWN"

abbrev pub field_id_to_string : FieldId → Text
field_id_to_string field_alloc_type = bytes "SQL_DESC_ALLOC_TYPE"
field_id_to_string field_array_size = bytes "SQL_DESC_ARRAY_SIZE"
field_id_to_string field_array_status_ptr = bytes "SQL_DESC_ARRAY_STATUS_PTR"
field_id_to_string field_bind_offset_ptr = bytes "SQL_DESC_BIND_OFFSET_PTR"
field_id_to_string field_bind_type = bytes "SQL_DESC_BIND_TYPE"
field_id_to_string field_count = bytes "SQL_DESC_COUNT"
field_id_to_string field_rows_processed_ptr = bytes "SQL_DESC_ROWS_PROCESSED_PTR"
field_id_to_string field_auto_unique_value = bytes "SQL_DESC_AUTO_UNIQUE_VALUE"
field_id_to_string field_base_column_name = bytes "SQL_DESC_BASE_COLUMN_NAME"
field_id_to_string field_base_table_name = bytes "SQL_DESC_BASE_TABLE_NAME"
field_id_to_string field_case_sensitive = bytes "SQL_DESC_CASE_SENSITIVE"
field_id_to_string field_catalog_name = bytes "SQL_DESC_CATALOG_NAME"
field_id_to_string field_concise_type = bytes "SQL_DESC_CONCISE_TYPE"
field_id_to_string field_data_ptr = bytes "SQL_DESC_DATA_PTR"
field_id_to_string field_datetime_interval_code = bytes "SQL_DESC_DATETIME_INTERVAL_CODE"
field_id_to_string field_datetime_interval_precision = bytes "SQL_DESC_DATETIME_INTERVAL_PRECISION"
field_id_to_string field_display_size = bytes "SQL_DESC_DISPLAY_SIZE"
field_id_to_string field_fixed_prec_scale = bytes "SQL_DESC_FIXED_PREC_SCALE"
field_id_to_string field_indicator_ptr = bytes "SQL_DESC_INDICATOR_PTR"
field_id_to_string field_label = bytes "SQL_DESC_LABEL"
field_id_to_string field_length = bytes "SQL_DESC_LENGTH"
field_id_to_string field_literal_prefix = bytes "SQL_DESC_LITERAL_PREFIX"
field_id_to_string field_literal_suffix = bytes "SQL_DESC_LITERAL_SUFFIX"
field_id_to_string field_local_type_name = bytes "SQL_DESC_LOCAL_TYPE_NAME"
field_id_to_string field_name = bytes "SQL_DESC_NAME"
field_id_to_string field_nullable = bytes "SQL_DESC_NULLABLE"
field_id_to_string field_num_prec_radix = bytes "SQL_DESC_NUM_PREC_RADIX"
field_id_to_string field_octet_length = bytes "SQL_DESC_OCTET_LENGTH"
field_id_to_string field_octet_length_ptr = bytes "SQL_DESC_OCTET_LENGTH_PTR"
field_id_to_string field_parameter_type = bytes "SQL_DESC_PARAMETER_TYPE"
field_id_to_string field_precision = bytes "SQL_DESC_PRECISION"
field_id_to_string field_rowver = bytes "SQL_DESC_ROWVER"
field_id_to_string field_scale = bytes "SQL_DESC_SCALE"
field_id_to_string field_schema_name = bytes "SQL_DESC_SCHEMA_NAME"
field_id_to_string field_searchable = bytes "SQL_DESC_SEARCHABLE"
field_id_to_string field_table_name = bytes "SQL_DESC_TABLE_NAME"
field_id_to_string field_type = bytes "SQL_DESC_TYPE"
field_id_to_string field_type_name = bytes "SQL_DESC_TYPE_NAME"
field_id_to_string field_unnamed = bytes "SQL_DESC_UNNAMED"
field_id_to_string field_unsigned = bytes "SQL_DESC_UNSIGNED"
field_id_to_string field_updatable = bytes "SQL_DESC_UPDATABLE"
field_id_to_string (other_id z) = bytes "UNKNOWN_FIELD_ID"

-- The types of descriptors in which a field may be read; `none` where any may.
abbrev pub allowed_types : FieldId → Option (List DescType)
allowed_types field_array_size = some (ard ∷ apd ∷ [])
allowed_types field_bind_offset_ptr = some (ard ∷ apd ∷ [])
allowed_types field_bind_type = some (ard ∷ apd ∷ [])
allowed_types field_rows_processed_ptr = some (ird ∷ ipd ∷ [])
allowed_types field_auto_unique_value = some (ird ∷ [])
allowed_types field_base_column_name = some (ird ∷ [])
allowed_types field_base_table_name = some (ird ∷ [])
allowed_types field_case_sensitive = some (ird ∷ ipd ∷ [])
allowed_types field_catalog_name = some (ird ∷ [])
allowed_types field_data_ptr = some (ard ∷ apd ∷ [])
allowed_types field_display_size = some (ird ∷ [])
allowed_types field_fixed_prec_scale = some (ird ∷ ipd ∷ [])
allowed_types field_indicator_ptr = some (ard ∷ apd ∷ [])
allowed_types field_label = some (ird ∷ [])
allowed_types field_literal_prefix = some (ird ∷ [])
allowed_types field_literal_suffix = some (ird ∷ [])
allowed_types field_local_type_name = some (ird ∷ ipd ∷ [])
allowed_types field_name = some (ird ∷ ipd ∷ [])
allowed_types field_nullable = some (ird ∷ ipd ∷ [])
allowed_types field_octet_length_ptr = some (ard ∷ apd ∷ [])
allowed_types field_parameter_type = some (ipd ∷ [])
allowed_types field_rowver = some (ird ∷ ipd ∷ [])
allowed_types field_schema_name = some (ird ∷ [])
allowed_types field_searchable = some (ird ∷ [])
allowed_types field_table_name = some (ird ∷ [])
allowed_types field_type_name = some (ird ∷ ipd ∷ [])
allowed_types field_unnamed = some (ird ∷ ipd ∷ [])
allowed_types field_unsigned = some (ird ∷ ipd ∷ [])
allowed_types field_updatable = some (ird ∷ [])
allowed_types _ = none

abbrev pub same_type : DescType → DescType → Bool
same_type ard ard = true
same_type apd apd = true
same_type ird ird = true
same_type ipd ipd = true
same_type unknown unknown = true
same_type _ _ = false

abbrev pub type_among : DescType → List DescType → Bool
type_among t [] = false
type_among t (u ∷ us) = same_type t u || type_among t us

abbrev pub is_allowed : DescType → Option (List DescType) → Bool
is_allowed t none = true
is_allowed t (some us) = type_among t us

-- The value of a field in the header or in a record.
unfoldable pub field_value : Descriptor → DescriptorRecord → FieldId → Option FieldValue
field_value d r field_alloc_type = some (signed d.header.alloc_type)
field_value d r field_array_size = some (unsigned d.header.array_size)
field_value d r field_array_status_ptr = some (pointer d.header.array_status_ptr)
field_value d r field_bind_offset_ptr = some (pointer d.header.bind_offset_ptr)
field_value d r field_bind_type = some (signed d.header.bind_type)
field_value d r field_count = some (signed d.header.count)
field_value d r field_rows_processed_ptr = some (pointer d.header.rows_processed_ptr)
field_value d r field_auto_unique_value = some (signed r.auto_unique_value)
field_value d r field_base_column_name = some (pointer r.base_column_name)
field_value d r field_base_table_name = some (pointer r.base_table_name)
field_value d r field_case_sensitive = some (signed r.case_sensitive)
field_value d r field_catalog_name = some (pointer r.catalog_name)
field_value d r field_concise_type = some (type_code r.concise_type)
field_value d r field_data_ptr = some (pointer r.data_ptr)
field_value d r field_datetime_interval_code = some (interval_code r.datetime_interval_code)
field_value d r field_datetime_interval_precision = some (signed r.datetime_interval_precision)
field_value d r field_display_size = some (signed r.display_size)
field_value d r field_fixed_prec_scale = some (signed r.fixed_prec_scale)
field_value d r field_indicator_ptr = some (pointer r.indicator_ptr)
field_value d r field_label = some (pointer r.label)
field_value d r field_length = some (unsigned r.length_of_data)
field_value d r field_literal_prefix = some (pointer r.literal_prefix)
field_value d r field_literal_suffix = some (pointer r.literal_suffix)
field_value d r field_local_type_name = some (pointer r.local_type_name)
field_value d r field_name = some (pointer r.name)
field_value d r field_nullable = some (signed r.nullable)
field_value d r field_num_prec_radix = some (signed r.num_prec_radix)
field_value d r field_octet_length = some (signed r.octet_length)
field_value d r field_octet_length_ptr = some (pointer r.octet_length_ptr)
field_value d r field_parameter_type = some (signed r.parameter_type)
field_value d r field_precision = some (signed r.precision)
field_value d r field_rowver = some (signed r.rowver)
field_value d r field_scale = some (signed r.scale)
field_value d r field_schema_name = some (pointer r.schema_name)
field_value d r field_searchable = some (signed r.searchable)
field_value d r field_table_name = some (pointer r.table_name)
field_value d r field_type = some (type_code r.type)
field_value d r field_type_name = some (pointer r.type_name)
field_value d r field_unnamed = some (signed r.unnamed)
field_value d r field_unsigned = some (signed r.desc_unsigned)
field_value d r field_updatable = some (signed r.updatable)
field_value d r (other_id z) = none

-- The result, the value written and the descriptor after a read.
pub record Read : Type 0 where
  pub result : SqlResult
  pub value : Option FieldValue
  pub after : Descriptor

-- The message of the two macros ALLOWED_DESC_TYPE1 and ALLOWED_DESC_TYPE2.
abbrev pub not_allowed : DescType → FieldId → Text
not_allowed t id =
    bytes "Current descriptor type "
    ++ desc_type_to_string t
    ++ bytes " is not allowed to get field "
    ++ field_id_to_string id

abbrev pub refuse_read : Descriptor → Text → Read
refuse_read d message = record {
  result = SqlResult.error;
  value = none;
  after = record d { diag = add_status_record shy000_general_error message d.diag };
}

abbrev pub id_text : FieldId → Text
id_text (other_id z) = print_int z
id_text _ = []

abbrev pub answer_read : Descriptor → FieldId → Option FieldValue → Read
answer_read d id none = refuse_read d (bytes "Unsupported fieldId " ++ id_text id)
answer_read d id (some v) = record { result = SqlResult.success; value = some v; after = d }

-- The record of the number is made where it is not there, whatever the field is.
unfoldable pub internal_get_field : Descriptor → ℤ → FieldId → Read
internal_get_field d k id =
    let r = record_of k d.records in
    let d' = record d { records = store_at k r d.records } in
    if is_allowed d.desc_type (allowed_types id)
    then answer_read d' id (field_value d r id)
    else refuse_read d' (not_allowed d.desc_type id)
