-- ===== src/Diagnostic/Fields.antt =====
-- `DiagnosticRecordStorage::GetField` (src/odbc/src/diagnostic/diagnostic_record_storage.cpp) and the
-- calls `SQLGetDiagField` and `SQLGetDiagRec` (src/odbc/src/odbc.cpp).
use amazon_timestream_odbc_d.Base.{
  ltb, if◌then◌else◌, length, ℤ, pos, negsuc, Text, ◌||◌, Option, none, some,
}
use amazon_timestream_odbc_d.SqlTypes.{
  SqlResult, DiagnosticField, ReturnCode, no_data, header_cursor_row_count, header_dynamic_function,
  header_dynamic_function_code, header_number, header_returncode, header_row_count,
  status_class_origin, status_column_number, status_connection_name, status_message_text,
  status_native, status_row_number, status_server_name, status_sqlstate, status_subclass_origin,
}
use amazon_timestream_odbc_d.Diagnostic.Record.{
  get_sql_state, get_class_origin, get_subclass_origin, DiagnosticRecord,
}
use amazon_timestream_odbc_d.Diagnostic.Storage.{
  get_return_code, get_status_records_number, get_status_record, DiagnosticRecordStorage,
}

-- The interface of `ApplicationDataBuffer` that the diagnostics use, and the numbers of the return
-- codes, which the headers of ODBC define. What a call of the buffer stores is the buffer's affair: it
-- stores nothing for an empty string, for one.
pub record DataBuffer : Type 1 where
  pub Buffer : Type 0
  pub put_int32 : ℤ → Buffer → Buffer
  pub put_int64 : ℤ → Buffer → Buffer
  pub put_string : Text → Buffer → Buffer
  pub result_length : Buffer → ℤ
  pub code_number : ReturnCode → ℤ

-- A call of the buffer.
pub data Put : Type 0 where
  int32 : ℤ → Put
  int64 : ℤ → Put
  code : ReturnCode → Put
  string : Text → Put

-- The first switch of `GetField`: the header record. `none` is its default.
unfoldable pub header_put : DiagnosticField → DiagnosticRecordStorage → Option Put
unfolding get_status_records_number get_return_code
header_put header_cursor_row_count s = some (int64 s.row_count)
header_put header_dynamic_function s = some (string s.dynamic_function)
header_put header_dynamic_function_code s = some (int32 s.dynamic_function_code)
header_put header_number s = some (int32 (pos (get_status_records_number s)))
header_put header_returncode s = some (code (get_return_code s))
header_put header_row_count s = some (int64 s.rows_affected)
header_put _ s = none

-- The second switch: a status record. `none` is its default.
unfoldable pub status_put : DiagnosticField → DiagnosticRecord → Option Put
unfolding get_class_origin get_subclass_origin get_sql_state
status_put status_class_origin r = some (string (get_class_origin r))
status_put status_column_number r = some (int32 r.column_num)
status_put status_connection_name r = some (string r.connection_name)
status_put status_message_text r = some (string r.message)
status_put status_native r = some (int32 (pos 0))
status_put status_row_number r = some (int64 r.row_num)
status_put status_server_name r = some (string r.server_name)
status_put status_sqlstate r = some (string (get_sql_state r))
status_put status_subclass_origin r = some (string (get_subclass_origin r))
status_put _ r = none

-- `recNum < 1 || recNum > statusRecords.size()` is `none`, else the record of that number.
unfoldable pub record_at : ℤ → DiagnosticRecordStorage → Option DiagnosticRecord
unfolding get_status_record
record_at (negsuc n) s = none
record_at (pos n) s =
    if ltb n 1 || ltb (length s.status_records) n then none else get_status_record n s

module _ (d : DataBuffer) where
  open d use {Buffer, put_int32, put_int64, put_string, code_number}

  pub put : Put → Buffer → Buffer
  put (int32 n) b = put_int32 n b
  put (int64 n) b = put_int64 n b
  put (code c) b = put_int32 (code_number c) b
  put (string t) b = put_string t b

  unfoldable pub put_status : Option Put → Buffer → SqlResult × Buffer
  unfolding put
  put_status none b = (SqlResult.error, b)
  put_status (some p) b = (SqlResult.success, put p b)

  unfoldable pub get_status_field :
      Option DiagnosticRecord → DiagnosticField → Buffer → SqlResult × Buffer
  unfolding put_status status_put
  get_status_field none field b = (no_data, b)
  get_status_field (some r) field b = put_status (status_put field r) b

  unfoldable pub get_field :
      ℤ → DiagnosticField → DiagnosticRecordStorage → Buffer → SqlResult × Buffer
  unfolding get_status_field header_put record_at put
  get_field rec_num field s b = elim (header_put field s) [
    | some p ↦ (SqlResult.success, put p b)
    | none ↦ get_status_field (record_at rec_num s) field b
  ]
