-- ===== src/Diagnostic/Storage.antt =====
-- src/odbc/src/diagnostic/diagnostic_record_storage.cpp and diagnosable_adapter.cpp: the header record
-- and the list of status records of one handle.
use amazon_timestream_odbc_d.Base.{
  if◌then◌else◌, length, get_elem?, ℤ, pos, Text, ℕ, zero, suc, ◌+◌, Bool, true, false, Option,
  none, List, [], ◌∷◌, ◌++◌,
}
use amazon_timestream_odbc_d.SqlTypes.{
  sql_result_to_return_code, SqlResult, SqlState, ReturnCode, success_with_info,
}
use amazon_timestream_odbc_d.Diagnostic.Record.{make_record, DiagnosticRecord}

pub record DiagnosticRecordStorage : Type 0 where
  pub row_count : ℤ  -- int64_t
  pub dynamic_function : Text
  pub dynamic_function_code : ℤ  -- int32_t
  pub result : SqlResult
  pub rows_affected : ℤ  -- int32_t
  pub status_records : List DiagnosticRecord

-- The constructor.
unfoldable pub new_storage : DiagnosticRecordStorage
new_storage = record {
  row_count = pos 0;
  dynamic_function = [];
  dynamic_function_code = pos 0;
  result = SqlResult.success;
  rows_affected = pos 0;
  status_records = [];
}

unfoldable pub set_header_record : SqlResult → DiagnosticRecordStorage → DiagnosticRecordStorage
set_header_record result s = record s {
  row_count = pos 0;
  dynamic_function = [];
  dynamic_function_code = pos 0;
  result = result;
  rows_affected = pos 0;
}

-- `AddStatusRecord(const DiagnosticRecord&)`.
unfoldable pub add_record : DiagnosticRecord → DiagnosticRecordStorage → DiagnosticRecordStorage
add_record r s = record s { status_records = s.status_records ++ r ∷ [] }

-- `AddStatusRecord(sqlState, message)`.
unfoldable pub add_status_record :
    SqlState → Text → DiagnosticRecordStorage → DiagnosticRecordStorage
unfolding add_record make_record
add_status_record state message = add_record (make_record state message [] [] (pos 0) (pos 0))

-- `DiagnosableAdapter::AddStatusRecord` with a row and a column, with the `CreateStatusRecord` of
-- the connection: both branches build the record with empty names.
unfoldable pub add_status_record_at :
    SqlState → Text → ℤ → ℤ → DiagnosticRecordStorage → DiagnosticRecordStorage
unfolding add_record make_record
add_status_record_at state message row column =
    add_record (make_record state message [] [] row column)

unfoldable pub reset : DiagnosticRecordStorage → DiagnosticRecordStorage
unfolding set_header_record
reset s = record (set_header_record SqlResult.error s) { status_records = [] }

unfoldable pub get_return_code : DiagnosticRecordStorage → ReturnCode
unfolding sql_result_to_return_code
get_return_code s = sql_result_to_return_code s.result

unfoldable pub get_status_records_number : DiagnosticRecordStorage → ℕ
get_status_records_number s = length s.status_records

abbrev is_success : SqlResult → Bool
is_success SqlResult.success = true
is_success success_with_info = true
is_success _ = false

unfoldable pub is_successful : DiagnosticRecordStorage → Bool
is_successful s = is_success s.result

-- The record of the number `idx`, counted from 1. The vector is read out of bounds for 0 and for a
-- number above the size, which is `none` here.
unfoldable pub get_status_record : ℕ → DiagnosticRecordStorage → Option DiagnosticRecord
get_status_record zero s = none
get_status_record (suc i) s = get_elem? s.status_records i

-- The loop of `GetLastNonRetrieved`, from the index `i`.
unfoldable pub scan_retrieved : ℕ → List DiagnosticRecord → ℕ
scan_retrieved i [] = 0
scan_retrieved i (r ∷ rs) =
    let rest = scan_retrieved (i + 1) rs in if r.retrieved then rest else i + 1

unfoldable pub get_last_non_retrieved : DiagnosticRecordStorage → ℕ
unfolding scan_retrieved
get_last_non_retrieved s = scan_retrieved 0 s.status_records
