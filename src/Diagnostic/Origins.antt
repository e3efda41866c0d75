-- ===== src/Diagnostic/Origins.antt =====
-- Where the class and the subclass of a SQLSTATE come from.
use mathlib.Core.Bool.{false≢true}
use amazon_timestream_odbc_d.Base.{text_eq, one_of, ◌≡◌, refl, sym, ap, ◌⊎◌, inl, inr, true, false}
use amazon_timestream_odbc_d.SqlTypes.{
  SqlState, s01000_general_warning, s01004_data_truncated,
  s01s00_invalid_connection_string_attribute, s01s01_error_in_row, s01s02_option_value_changed,
  s01s07_fractional_truncation, s07006_restriction_violation, s22002_indicator_needed,
  s22026_data_length_mismatch, s23000_integrity_constraint_violation, s24000_invalid_cursor_state,
  s25000_invalid_transaction_state, s34000_invalid_cursor_name, s3c000_duplicate_cursor_name,
  s3f000_invalid_schema_name, s40001_serialization_failure, s42000_syntax_error_or_access_violation,
  s42s01_table_or_view_already_exists, s42s02_table_or_view_not_found, s42s11_index_already_exists,
  s42s12_index_not_found, s42s21_column_already_exists, s42s22_column_not_found,
  s07009_invalid_descriptor_index, s08001_cannot_connect, s08002_already_connected,
  s08003_not_connected, s08004_connection_rejected, s08s01_link_failure, shy000_general_error,
  shy001_memory_allocation, shy003_invalid_application_buffer_type, shy004_invalid_sql_data_type,
  shy008_operation_canceled, shy009_invalid_use_of_null_pointer, shy010_sequence_error,
  shy016_modify_ird, shy024_invalid_attribute_value, shy090_invalid_string_or_buffer_length,
  shy091_invalid_descr_field_id, shy092_option_type_out_of_range, shy097_column_type_out_of_range,
  shy105_invalid_parameter_type, shy106_fetch_type_out_of_range,
  shyc00_optional_feature_not_implemented, shyt00_timeout_expired, shyt01_connection_timeout,
  sim001_function_not_supported,
}
use amazon_timestream_odbc_d.Diagnostic.Record.{
  origin_iso_9075, origin_odbc_3_0, state_text, starts_im, get_class_origin, odbc_subclasses,
  get_subclass_origin, DiagnosticRecord,
}

origin-cases :
    (s : SqlState)
    → (starts_im (state_text s) ≡ false) ⊎ (one_of (state_text s) odbc_subclasses ≡ true)
unfolding state_text
origin-cases SqlState.unknown = inl refl
origin-cases s01000_general_warning = inl refl
origin-cases s01004_data_truncated = inl refl
origin-cases s01s00_invalid_connection_string_attribute = inl refl
origin-cases s01s01_error_in_row = inl refl
origin-cases s01s02_option_value_changed = inl refl
origin-cases s01s07_fractional_truncation = inl refl
origin-cases s07006_restriction_violation = inl refl
origin-cases s22002_indicator_needed = inl refl
origin-cases s22026_data_length_mismatch = inl refl
origin-cases s23000_integrity_constraint_violation = inl refl
origin-cases s24000_invalid_cursor_state = inl refl
origin-cases s25000_invalid_transaction_state = inl refl
origin-cases s34000_invalid_cursor_name = inl refl
origin-cases s3c000_duplicate_cursor_name = inl refl
origin-cases s3f000_invalid_schema_name = inl refl
origin-cases s40001_serialization_failure = inl refl
origin-cases s42000_syntax_error_or_access_violation = inl refl
origin-cases s42s01_table_or_view_already_exists = inl refl
origin-cases s42s02_table_or_view_not_found = inl refl
origin-cases s42s11_index_already_exists = inl refl
origin-cases s42s12_index_not_found = inl refl
origin-cases s42s21_column_already_exists = inl refl
origin-cases s42s22_column_not_found = inl refl
origin-cases s07009_invalid_descriptor_index = inl refl
origin-cases s08001_cannot_connect = inl refl
origin-cases s08002_already_connected = inl refl
origin-cases s08003_not_connected = inl refl
origin-cases s08004_connection_rejected = inl refl
origin-cases s08s01_link_failure = inl refl
origin-cases shy000_general_error = inl refl
origin-cases shy001_memory_allocation = inl refl
origin-cases shy003_invalid_application_buffer_type = inl refl
origin-cases shy004_invalid_sql_data_type = inl refl
origin-cases shy008_operation_canceled = inl refl
origin-cases shy009_invalid_use_of_null_pointer = inl refl
origin-cases shy010_sequence_error = inl refl
origin-cases shy016_modify_ird = inl refl
origin-cases shy024_invalid_attribute_value = inl refl
origin-cases shy090_invalid_string_or_buffer_length = inl refl
origin-cases shy091_invalid_descr_field_id = inl refl
origin-cases shy092_option_type_out_of_range = inl refl
origin-cases shy097_column_type_out_of_range = inl refl
origin-cases shy105_invalid_parameter_type = inl refl
origin-cases shy106_fetch_type_out_of_range = inl refl
origin-cases shyc00_optional_feature_not_implemented = inl refl
origin-cases shyt00_timeout_expired = inl refl
origin-cases shyt01_connection_timeout = inl refl
origin-cases sim001_function_not_supported = inr refl

origins_differ : ¬ (origin_odbc_3_0 ≡ origin_iso_9075)
origins_differ h = false≢true (sym (ap (text_eq origin_odbc_3_0) h))

-- Of the class and the subclass of a state, the class comes from ODBC only if the subclass does.
pub class_origin-subclass_origin :
    (r : DiagnosticRecord)
    → get_class_origin r ≡ origin_odbc_3_0
    → get_subclass_origin r ≡ origin_odbc_3_0
unfolding get_class_origin get_subclass_origin
class_origin-subclass_origin r e = elim (origin-cases r.sql_state) [
  | inl f ↦ absurd (origins_differ (sym (rw f at e)))
  | inr f ↦ rw f
]
