-- ===== src/SqlTypes.antt =====
-- src/odbc/include/timestream/odbc/common_types.h and src/odbc/src/common_types.cpp: the driver's result
-- codes, SQL states and identifiers, and their exchange with the codes of the ODBC interface.
-- A switch over the constants of the ODBC headers has distinct labels, so a value that it is given
-- is one of the named ones or `other`.
use amazon_timestream_odbc_d.Base.{ℤ}

-- `SqlResult::Type`.
pub data SqlResult : Type 0 where
  success success_with_info error no_data need_data : SqlResult

-- `SqlState::Type`.
pub data SqlState : Type 0 where
  unknown s01000_general_warning s01004_data_truncated s01s00_invalid_connection_string_attribute
        s01s01_error_in_row s01s02_option_value_changed s01s07_fractional_truncation
        s07006_restriction_violation s22002_indicator_needed s22026_data_length_mismatch
        s23000_integrity_constraint_violation s24000_invalid_cursor_state
        s25000_invalid_transaction_state s34000_invalid_cursor_name s3c000_duplicate_cursor_name
        s3f000_invalid_schema_name s40001_serialization_failure
        s42000_syntax_error_or_access_violation s42s01_table_or_view_already_exists
        s42s02_table_or_view_not_found s42s11_index_already_exists s42s12_index_not_found
        s42s21_column_already_exists s42s22_column_not_found s07009_invalid_descriptor_index
        s08001_cannot_connect s08002_already_connected s08003_not_connected
        s08004_connection_rejected s08s01_link_failure shy000_general_error shy001_memory_allocation
        shy003_invalid_application_buffer_type shy004_invalid_sql_data_type
        shy008_operation_canceled shy009_invalid_use_of_null_pointer shy010_sequence_error
        shy016_modify_ird shy024_invalid_attribute_value shy090_invalid_string_or_buffer_length
        shy091_invalid_descr_field_id shy092_option_type_out_of_range
        shy097_column_type_out_of_range shy105_invalid_parameter_type shy106_fetch_type_out_of_range
        shyc00_optional_feature_not_implemented shyt00_timeout_expired shyt01_connection_timeout
        sim001_function_not_supported :
      SqlState

-- `DiagnosticField::Type`.
pub data DiagnosticField : Type 0 where
  unknown header_cursor_row_count header_dynamic_function header_dynamic_function_code header_number
        header_returncode header_row_count status_class_origin status_column_number
        status_connection_name status_message_text status_native status_row_number
        status_server_name status_sqlstate status_subclass_origin :
      DiagnosticField

-- `EnvironmentAttribute::Type`.
pub data EnvironmentAttribute : Type 0 where
  unknown odbc_version output_nts : EnvironmentAttribute

-- `ResponseStatus::Type`, and any other `int32_t` status.
pub data ResponseStatus : Type 0 where
  success unknown_error parsing_failure unsupported_operation unexpected_operation
        unexpected_element_type key_update table_not_found null_table_descriptor table_drop_failed
        index_already_exists index_not_found table_already_exists column_not_found
        column_already_exists conversion_failed duplicate_key concurrent_update null_key null_value
        entry_processing cache_not_found transaction_completed transaction_serialization_error :
      ResponseStatus
  other : ℤ → ResponseStatus

-- The return codes of the ODBC interface, and any other `int`.
pub data ReturnCode : Type 0 where
  sql_success sql_success_with_info sql_no_data sql_need_data sql_error sql_invalid_handle :
      ReturnCode
  other : ℤ → ReturnCode

unfoldable pub sql_result_to_return_code : SqlResult → ReturnCode
sql_result_to_return_code SqlResult.success = sql_success
sql_result_to_return_code success_with_info = sql_success_with_info
sql_result_to_return_code no_data = sql_no_data
sql_result_to_return_code need_data = sql_need_data
sql_result_to_return_code SqlResult.error = sql_error

unfoldable pub return_code_to_sql_result : ReturnCode → SqlResult
return_code_to_sql_result sql_success = SqlResult.success
return_code_to_sql_result sql_success_with_info = success_with_info
return_code_to_sql_result sql_no_data = no_data
return_code_to_sql_result sql_need_data = need_data
return_code_to_sql_result _ = SqlResult.error

-- The `SQL_DIAG_` identifiers of the ODBC interface, and any other `int16_t`.
pub data DiagnosticId : Type 0 where
  sql_diag_cursor_row_count sql_diag_dynamic_function sql_diag_dynamic_function_code sql_diag_number
        sql_diag_returncode sql_diag_row_count sql_diag_class_origin sql_diag_column_number
        sql_diag_connection_name sql_diag_message_text sql_diag_native sql_diag_row_number
        sql_diag_server_name sql_diag_sqlstate sql_diag_subclass_origin :
      DiagnosticId
  other : ℤ → DiagnosticId

unfoldable pub diagnostic_field_to_internal : DiagnosticId → DiagnosticField
diagnostic_field_to_internal sql_diag_cursor_row_count = header_cursor_row_count
diagnostic_field_to_internal sql_diag_dynamic_function = header_dynamic_function
diagnostic_field_to_internal sql_diag_dynamic_function_code = header_dynamic_function_code
diagnostic_field_to_internal sql_diag_number = header_number
diagnostic_field_to_internal sql_diag_returncode = header_returncode
diagnostic_field_to_internal sql_diag_row_count = header_row_count
diagnostic_field_to_internal sql_diag_class_origin = status_class_origin
diagnostic_field_to_internal sql_diag_column_number = status_column_number
diagnostic_field_to_internal sql_diag_connection_name = status_connection_name
diagnostic_field_to_internal sql_diag_message_text = status_message_text
diagnostic_field_to_internal sql_diag_native = status_native
diagnostic_field_to_internal sql_diag_row_number = status_row_number
diagnostic_field_to_internal sql_diag_server_name = status_server_name
diagnostic_field_to_internal sql_diag_sqlstate = status_sqlstate
diagnostic_field_to_internal sql_diag_subclass_origin = status_subclass_origin
diagnostic_field_to_internal (DiagnosticId.other n) = DiagnosticField.unknown

-- The environment attributes of the ODBC interface that the driver knows, and any other `int32_t`.
pub data AttributeId : Type 0 where
  sql_attr_odbc_version sql_attr_output_nts : AttributeId
  other : ℤ → AttributeId

unfoldable pub environment_attribute_to_internal : AttributeId → EnvironmentAttribute
environment_attribute_to_internal sql_attr_odbc_version = odbc_version
environment_attribute_to_internal sql_attr_output_nts = output_nts
environment_attribute_to_internal (AttributeId.other n) = EnvironmentAttribute.unknown

unfoldable pub response_status_to_sql_state : ResponseStatus → SqlState
response_status_to_sql_state parsing_failure = s42000_syntax_error_or_access_violation
response_status_to_sql_state key_update = s42000_syntax_error_or_access_violation
response_status_to_sql_state unexpected_operation = s42000_syntax_error_or_access_violation
response_status_to_sql_state unsupported_operation = shyc00_optional_feature_not_implemented
response_status_to_sql_state unexpected_element_type = shy004_invalid_sql_data_type
response_status_to_sql_state duplicate_key = s23000_integrity_constraint_violation
response_status_to_sql_state null_key = s23000_integrity_constraint_violation
response_status_to_sql_state null_value = s23000_integrity_constraint_violation
response_status_to_sql_state table_not_found = s42s02_table_or_view_not_found
response_status_to_sql_state index_already_exists = s42s11_index_already_exists
response_status_to_sql_state index_not_found = s42s12_index_not_found
response_status_to_sql_state table_already_exists = s42s01_table_or_view_already_exists
response_status_to_sql_state column_not_found = s42s22_column_not_found
response_status_to_sql_state column_already_exists = s42s21_column_already_exists
response_status_to_sql_state transaction_completed = s25000_invalid_transaction_state
response_status_to_sql_state transaction_serialization_error = s40001_serialization_failure
response_status_to_sql_state _ = shy000_general_error
