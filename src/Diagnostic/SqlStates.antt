-- ===== src/Diagnostic/SqlStates.antt =====
-- The texts of the SQL states: which states have one, and that it identifies the state.
use amazon_timestream_odbc_d.Base.{
  if◌then◌else◌, length, Text, bytes, text_eq, ◌≡◌, refl, sym, ap, ◌∙◌, ◌⊎◌, inl, inr, List, [],
  ◌∷◌, arith,
}
use amazon_timestream_odbc_d.SqlTypes.{
  SqlState, s01000_general_warning, s01004_data_truncated,
  s01s00_invalid_connection_string_attribute, s01s01_error_in_row, s01s02_option_value_changed,
  s01s07_fractional_truncation, s07006_restriction_violation, s22002_indicator_needed,
  s22026_data_length_mismatch, s23000_integrity_constraint_violation, s24000_invalid_cursor_state,
  s25000_invalid_transaction_state, s34000_invalid_cursor_name, s3c000_duplicate_cursor_name,
  s3f000_invalid_schema_name, s40001_serialization_failure, s42000_syntax_error_or_access_violation,
  s42s01_table_or_view_already_exists, s42s02_table_or_view_not_found, s42s11_index_already_exists,
  s42s12_index_not_found, s42s21_column_already_exists, s42s22_column_not_found,
  s07009_invalid_descriptor_index, s08001_cannot_connect, s08002_already_connected,
  s08003_not_connected, s08004_connection_rejected, s08s01_link_failure, shy000_general_error,
  shy001_memory_allocation, shy003_invalid_application_buffer_type, shy004_invalid_sql_data_type,
  shy008_operation_canceled, shy009_invalid_use_of_null_pointer, shy010_sequence_error,
  shy016_modify_ird, shy024_invalid_attribute_value, shy090_invalid_string_or_buffer_length,
  shy091_invalid_descr_field_id, shy092_option_type_out_of_range, shy097_column_type_out_of_range,
  shy105_invalid_parameter_type, shy106_fetch_type_out_of_range,
  shyc00_optional_feature_not_implemented, shyt00_timeout_expired, shyt01_connection_timeout,
  sim001_function_not_supported,
}
use amazon_timestream_odbc_d.Diagnostic.Record.{state_text, get_sql_state, DiagnosticRecord}

-- The states that the switch of `GetSqlState` leaves to its default.
pub data HasNoText : SqlState → Type 0 where
  no_unknown : HasNoText SqlState.unknown
  no_shy004 : HasNoText shy004_invalid_sql_data_type
  no_shy008 : HasNoText shy008_operation_canceled

-- An independent reading of a five-character SQLSTATE, as a search in a table.
table : List (Text × SqlState)
table =
    (bytes "01000", s01000_general_warning)
    ∷ (bytes "01004", s01004_data_truncated)
    ∷ (bytes "01S00", s01s00_invalid_connection_string_attribute)
    ∷ (bytes "01S01", s01s01_error_in_row)
    ∷ (bytes "01S02", s01s02_option_value_changed)
    ∷ (bytes "01S07", s01s07_fractional_truncation)
    ∷ (bytes "07006", s07006_restriction_violation)
    ∷ (bytes "22002", s22002_indicator_needed)
    ∷ (bytes "22026", s22026_data_length_mismatch)
    ∷ (bytes "23000", s23000_integrity_constraint_violation)
    ∷ (bytes "24000", s24000_invalid_cursor_state)
    ∷ (bytes "25000", s25000_invalid_transaction_state)
    ∷ (bytes "34000", s34000_invalid_cursor_name)
    ∷ (bytes "3C000", s3c000_duplicate_cursor_name)
    ∷ (bytes "3F000", s3f000_invalid_schema_name)
    ∷ (bytes "40001", s40001_serialization_failure)
    ∷ (bytes "42000", s42000_syntax_error_or_access_violation)
    ∷ (bytes "42S01", s42s01_table_or_view_already_exists)
    ∷ (bytes "42S02", s42s02_table_or_view_not_found)
    ∷ (bytes "42S11", s42s11_index_already_exists)
    ∷ (bytes "42S12", s42s12_index_not_found)
    ∷ (bytes "42S21", s42s21_column_already_exists)
    ∷ (bytes "42S22", s42s22_column_not_found)
    ∷ (bytes "07009", s07009_invalid_descriptor_index)
    ∷ (bytes "08001", s08001_cannot_connect)
    ∷ (bytes "08002", s08002_already_connected)
    ∷ (bytes "08003", s08003_not_connected)
    ∷ (bytes "08004", s08004_connection_rejected)
    ∷ (bytes "08S01", s08s01_link_failure)
    ∷ (bytes "HY000", shy000_general_error)
    ∷ (bytes "HY001", shy001_memory_allocation)
    ∷ (bytes "HY003", shy003_invalid_application_buffer_type)
    ∷ (bytes "HY009", shy009_invalid_use_of_null_pointer)
    ∷ (bytes "HY010", shy010_sequence_error)
    ∷ (bytes "HY016", shy016_modify_ird)
    ∷ (bytes "HY024", shy024_invalid_attribute_value)
    ∷ (bytes "HY090", shy090_invalid_string_or_buffer_length)
    ∷ (bytes "HY091", shy091_invalid_descr_field_id)
    ∷ (bytes "HY092", shy092_option_type_out_of_range)
    ∷ (bytes "HY097", shy097_column_type_out_of_range)
    ∷ (bytes "HY105", shy105_invalid_parameter_type)
    ∷ (bytes "HY106", shy106_fetch_type_out_of_range)
    ∷ (bytes "HYC00", shyc00_optional_feature_not_implemented)
    ∷ (bytes "HYT00", shyt00_timeout_expired)
    ∷ (bytes "HYT01", shyt01_connection_timeout)
    ∷ (bytes "IM001", sim001_function_not_supported)
    ∷ []

find_state : Text → List (Text × SqlState) → SqlState
find_state t [] = SqlState.unknown
find_state t ((u, s) ∷ rest) = if text_eq t u then s else find_state t rest

-- Every state either has no text, or has one of five characters from which it can be read back.
state_text-cases :
    (s : SqlState)
    → (HasNoText s × (state_text s ≡ []))
      ⊎ ((length (state_text s) ≡ 5) × (find_state (state_text s) table ≡ s))
unfolding state_text find_state table
state_text-cases SqlState.unknown = inl (no_unknown, refl)
state_text-cases s01000_general_warning = inr (refl, refl)
state_text-cases s01004_data_truncated = inr (refl, refl)
state_text-cases s01s00_invalid_connection_string_attribute = inr (refl, refl)
state_text-cases s01s01_error_in_row = inr (refl, refl)
state_text-cases s01s02_option_value_changed = inr (refl, refl)
state_text-cases s01s07_fractional_truncation = inr (refl, refl)
state_text-cases s07006_restriction_violation = inr (refl, refl)
state_text-cases s22002_indicator_needed = inr (refl, refl)
state_text-cases s22026_data_length_mismatch = inr (refl, refl)
state_text-cases s23000_integrity_constraint_violation = inr (refl, refl)
state_text-cases s24000_invalid_cursor_state = inr (refl, refl)
state_text-cases s25000_invalid_transaction_state = inr (refl, refl)
state_text-cases s34000_invalid_cursor_name = inr (refl, refl)
state_text-cases s3c000_duplicate_cursor_name = inr (refl, refl)
state_text-cases s3f000_invalid_schema_name = inr (refl, refl)
state_text-cases s40001_serialization_failure = inr (refl, refl)
state_text-cases s42000_syntax_error_or_access_violation = inr (refl, refl)
state_text-cases s42s01_table_or_view_already_exists = inr (refl, refl)
state_text-cases s42s02_table_or_view_not_found = inr (refl, refl)
state_text-cases s42s11_index_already_exists = inr (refl, refl)
state_text-cases s42s12_index_not_found = inr (refl, refl)
state_text-cases s42s21_column_already_exists = inr (refl, refl)
state_text-cases s42s22_column_not_found = inr (refl, refl)
state_text-cases s07009_invalid_descriptor_index = inr (refl, refl)
state_text-cases s08001_cannot_connect = inr (refl, refl)
state_text-cases s08002_already_connected = inr (refl, refl)
state_text-cases s08003_not_connected = inr (refl, refl)
state_text-cases s08004_connection_rejected = inr (refl, refl)
state_text-cases s08s01_link_failure = inr (refl, refl)
state_text-cases shy000_general_error = inr (refl, refl)
state_text-cases shy001_memory_allocation = inr (refl, refl)
state_text-cases shy003_invalid_application_buffer_type = inr (refl, refl)
state_text-cases shy004_invalid_sql_data_type = inl (no_shy004, refl)
state_text-cases shy008_operation_canceled = inl (no_shy008, refl)
state_text-cases shy009_invalid_use_of_null_pointer = inr (refl, refl)
state_text-cases shy010_sequence_error = inr (refl, refl)
state_text-cases shy016_modify_ird = inr (refl, refl)
state_text-cases shy024_invalid_attribute_value = inr (refl, refl)
state_text-cases shy090_invalid_string_or_buffer_length = inr (refl, refl)
state_text-cases shy091_invalid_descr_field_id = inr (refl, refl)
state_text-cases shy092_option_type_out_of_range = inr (refl, refl)
state_text-cases shy097_column_type_out_of_range = inr (refl, refl)
state_text-cases shy105_invalid_parameter_type = inr (refl, refl)
state_text-cases shy106_fetch_type_out_of_range = inr (refl, refl)
state_text-cases shyc00_optional_feature_not_implemented = inr (refl, refl)
state_text-cases shyt00_timeout_expired = inr (refl, refl)
state_text-cases shyt01_connection_timeout = inr (refl, refl)
state_text-cases sim001_function_not_supported = inr (refl, refl)

-- The SQLSTATE that the caller sees is five characters long, except for the three states without a
-- text, and for those it is empty.
pub get_sql_state-length :
    (r : DiagnosticRecord)
    → (length (get_sql_state r) ≡ 5) ⊎ (HasNoText r.sql_state × (get_sql_state r ≡ []))
unfolding get_sql_state
get_sql_state-length r = elim (state_text-cases r.sql_state) [
  | inl (h, e) ↦ inr (h, e)
  | inr (l, _) ↦ inl l
]

-- The text identifies the state: two records with one SQLSTATE have one state, unless the text is
-- the empty one of the states without a text.
pub get_sql_state-injective :
    (r q : DiagnosticRecord)
    → get_sql_state r ≡ get_sql_state q
    → (r.sql_state ≡ q.sql_state) ⊎ (HasNoText r.sql_state × HasNoText q.sql_state)
unfolding get_sql_state
get_sql_state-injective r q e = elim (state_text-cases r.sql_state) [
  | inl (h, f) ↦ elim (state_text-cases q.sql_state) [
    | inl (k, g) ↦ inr (h, k)
    | inr (l, g) ↦ absurd (omega (arith, l, ap length (sym e ∙ f)))
  ]
  | inr (l, f) ↦ elim (state_text-cases q.sql_state) [
    | inl (k, g) ↦ absurd (omega (arith, l, ap length (e ∙ g)))
    | inr (m, g) ↦ inl (sym f ∙ ap (λ t. find_state t table) e ∙ g)
  ]
]
