-- ===== src/Diagnostic/Record.antt =====
-- src/odbc/src/diagnostic/diagnostic_record.cpp: one status record. A `std::string` is its bytes.
use amazon_timestream_odbc_d.Base.{
  ◌==◌, if◌then◌else◌, ℤ, Text, bytes, one_of, Bool, true, false, ◌&&◌, List, [], ◌∷◌,
}
use amazon_timestream_odbc_d.SqlTypes.{
  SqlState, s01000_general_warning, s01004_data_truncated,
  s01s00_invalid_connection_string_attribute, s01s01_error_in_row, s01s02_option_value_changed,
  s01s07_fractional_truncation, s07006_restriction_violation, s22002_indicator_needed,
  s22026_data_length_mismatch, s23000_integrity_constraint_violation, s24000_invalid_cursor_state,
  s25000_invalid_transaction_state, s34000_invalid_cursor_name, s3c000_duplicate_cursor_name,
  s3f000_invalid_schema_name, s40001_serialization_failure, s42000_syntax_error_or_access_violation,
  s42s01_table_or_view_already_exists, s42s02_table_or_view_not_found, s42s11_index_already_exists,
  s42s12_index_not_found, s42s21_column_already_exists, s42s22_column_not_found,
  s07009_invalid_descriptor_index, s08001_cannot_connect, s08002_already_connected,
  s08003_not_connected, s08004_connection_rejected, s08s01_link_failure, shy000_general_error,
  shy001_memory_allocation, shy003_invalid_application_buffer_type,
  shy009_invalid_use_of_null_pointer, shy010_sequence_error, shy016_modify_ird,
  shy024_invalid_attribute_value, shy090_invalid_string_or_buffer_length,
  shy091_invalid_descr_field_id, shy092_option_type_out_of_range, shy097_column_type_out_of_range,
  shy105_invalid_parameter_type, shy106_fetch_type_out_of_range,
  shyc00_optional_feature_not_implemented, shyt00_timeout_expired, shyt01_connection_timeout,
  sim001_function_not_supported,
}

pub record DiagnosticRecord : Type 0 where
  pub sql_state : SqlState
  pub message : Text
  pub connection_name : Text
  pub server_name : Text
  pub row_num : ℤ  -- int32_t
  pub column_num : ℤ  -- int32_t
  pub retrieved : Bool

abbrev pub origin_iso_9075 : Text
origin_iso_9075 = bytes "ISO 9075"

abbrev pub origin_odbc_3_0 : Text
origin_odbc_3_0 = bytes "ODBC 3.0"

-- The constructor with arguments.
unfoldable pub make_record : SqlState → Text → Text → Text → ℤ → ℤ → DiagnosticRecord
make_record state message connection server row column = record {
  sql_state = state;
  message = message;
  connection_name = connection;
  server_name = server;
  row_num = row;
  column_num = column;
  retrieved = false;
}

-- `GetSqlState`; the last clause is the `default` of its switch.
unfoldable pub state_text : SqlState → Text
state_text s01000_general_warning = bytes "01000"
state_text s01004_data_truncated = bytes "01004"
state_text s01s00_invalid_connection_string_attribute = bytes "01S00"
state_text s01s01_error_in_row = bytes "01S01"
state_text s01s02_option_value_changed = bytes "01S02"
state_text s01s07_fractional_truncation = bytes "01S07"
state_text s07006_restriction_violation = bytes "07006"
state_text s22002_indicator_needed = bytes "22002"
state_text s22026_data_length_mismatch = bytes "22026"
state_text s23000_integrity_constraint_violation = bytes "23000"
state_text s24000_invalid_cursor_state = bytes "24000"
state_text s25000_invalid_transaction_state = bytes "25000"
state_text s34000_invalid_cursor_name = bytes "34000"
state_text s3c000_duplicate_cursor_name = bytes "3C000"
state_text s3f000_invalid_schema_name = bytes "3F000"
state_text s40001_serialization_failure = bytes "40001"
state_text s42000_syntax_error_or_access_violation = bytes "42000"
state_text s42s01_table_or_view_already_exists = bytes "42S01"
state_text s42s02_table_or_view_not_found = bytes "42S02"
state_text s42s11_index_already_exists = bytes "42S11"
state_text s42s12_index_not_found = bytes "42S12"
state_text s42s21_column_already_exists = bytes "42S21"
state_text s42s22_column_not_found = bytes "42S22"
state_text s07009_invalid_descriptor_index = bytes "07009"
state_text s08001_cannot_connect = bytes "08001"
state_text s08002_already_connected = bytes "08002"
state_text s08003_not_connected = bytes "08003"
state_text s08004_connection_rejected = bytes "08004"
state_text s08s01_link_failure = bytes "08S01"
state_text shy000_general_error = bytes "HY000"
state_text shy001_memory_allocation = bytes "HY001"
state_text shy003_invalid_application_buffer_type = bytes "HY003"
state_text shy009_invalid_use_of_null_pointer = bytes "HY009"
state_text shy010_sequence_error = bytes "HY010"
state_text shy016_modify_ird = bytes "HY016"
state_text shy024_invalid_attribute_value = bytes "HY024"
state_text shy090_invalid_string_or_buffer_length = bytes "HY090"
state_text shy091_invalid_descr_field_id = bytes "HY091"
state_text shy092_option_type_out_of_range = bytes "HY092"
state_text shy097_column_type_out_of_range = bytes "HY097"
state_text shy105_invalid_parameter_type = bytes "HY105"
state_text shy106_fetch_type_out_of_range = bytes "HY106"
state_text shyc00_optional_feature_not_implemented = bytes "HYC00"
state_text shyt00_timeout_expired = bytes "HYT00"
state_text shyt01_connection_timeout = bytes "HYT01"
state_text sim001_function_not_supported = bytes "IM001"
state_text _ = []

unfoldable pub get_sql_state : DiagnosticRecord → Text
unfolding state_text
get_sql_state r = state_text r.sql_state

-- `state[0] == 'I' && state[1] == 'M'`. The character behind the last one is NUL, and the second
-- test is made only where the first holds.
abbrev pub starts_im : Text → Bool
starts_im [] = false
starts_im (a ∷ []) = false
starts_im (a ∷ b ∷ rest) = (a == b'I') && (b == b'M')

unfoldable pub get_class_origin : DiagnosticRecord → Text
unfolding get_sql_state
get_class_origin r = if starts_im (get_sql_state r) then origin_odbc_3_0 else origin_iso_9075

-- The set that the first call of `GetSubclassOrigin` fills.
abbrev pub odbc_subclasses : List Text
odbc_subclasses =
    bytes "01S00"
    ∷ bytes "01S01"
    ∷ bytes "01S02"
    ∷ bytes "01S06"
    ∷ bytes "01S07"
    ∷ bytes "07S01"
    ∷ bytes "08S01"
    ∷ bytes "21S01"
    ∷ bytes "21S02"
    ∷ bytes "25S01"
    ∷ bytes "25S02"
    ∷ bytes "25S03"
    ∷ bytes "42S01"
    ∷ bytes "42S02"
    ∷ bytes "42S11"
    ∷ bytes "42S12"
    ∷ bytes "42S21"
    ∷ bytes "42S22"
    ∷ bytes "HY024"
    ∷ bytes "HY095"
    ∷ bytes "HY097"
    ∷ bytes "HY098"
    ∷ bytes "HY099"
    ∷ bytes "HY100"
    ∷ bytes "HY101"
    ∷ bytes "HY105"
    ∷ bytes "HY107"
    ∷ bytes "HY109"
    ∷ bytes "HY110"
    ∷ bytes "HY111"
    ∷ bytes "HYT00"
    ∷ bytes "HYT01"
    ∷ bytes "IM001"
    ∷ bytes "IM002"
    ∷ bytes "IM003"
    ∷ bytes "IM004"
    ∷ bytes "IM005"
    ∷ bytes "IM006"
    ∷ bytes "IM007"
    ∷ bytes "IM008"
    ∷ bytes "IM010"
    ∷ bytes "IM011"
    ∷ bytes "IM012"
    ∷ []

unfoldable pub get_subclass_origin : DiagnosticRecord → Text
unfolding get_sql_state
get_subclass_origin r =
    if one_of (get_sql_state r) odbc_subclasses then origin_odbc_3_0 else origin_iso_9075

unfoldable pub mark_retrieved : DiagnosticRecord → DiagnosticRecord
mark_retrieved r = record r { retrieved = true }
