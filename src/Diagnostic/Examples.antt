-- ===== src/Diagnostic/Examples.antt =====
-- The diagnostics of a handle with two records, and the theorems at it.
use amazon_timestream_odbc_d.Base.{
  length, replicate, pos, bytes, ℕ, zero, suc, ◌≡◌, refl, ap, ◌⊎◌, true, false, none, some, List,
  [], ◌∷◌, arith,
}
use amazon_timestream_odbc_d.SqlTypes.{
  SqlResult, DiagnosticField, no_data, s01004_data_truncated, shy000_general_error,
  sim001_function_not_supported, status_sqlstate, sql_success,
}
use amazon_timestream_odbc_d.Utility.Examples.{ascii}
use amazon_timestream_odbc_d.Diagnostic.Record.{
  origin_odbc_3_0, get_sql_state, get_class_origin, get_subclass_origin, DiagnosticRecord,
}
use amazon_timestream_odbc_d.Diagnostic.Storage.{get_status_record, DiagnosticRecordStorage}
use amazon_timestream_odbc_d.Diagnostic.Retrieval.{
  output_of, sql_error, pending, sql_errors, sql_error-pending, sql_errors-pending,
}
use amazon_timestream_odbc_d.Diagnostic.Origins.{class_origin-subclass_origin}
use amazon_timestream_odbc_d.Diagnostic.SqlStates.{
  get_sql_state-length, get_sql_state-injective, HasNoText,
}
use amazon_timestream_odbc_d.Diagnostic.Fields.{
  put, get_field, DataBuffer, Put, int32, int64, string,
}
use amazon_timestream_odbc_d.Diagnostic.FieldLaws.{InRange, Reads, get_field-cases, IsHeader}
use amazon_timestream_odbc_d.Diagnostic.DiagRec.{sql_get_diag_rec, DiagRecArgs, sql_handle_stmt}
use amazon_timestream_odbc_d.Diagnostic.DiagRecLaws.{sql_get_diag_rec_long_message}

abbrev seen_warning : DiagnosticRecord
seen_warning = record {
  sql_state = s01004_data_truncated;
  message = bytes "cut";
  connection_name = [];
  server_name = [];
  row_num = pos 0;
  column_num = pos 2;
  retrieved = true;
}

abbrev new_error : DiagnosticRecord
new_error = record {
  sql_state = shy000_general_error;
  message = bytes "failed";
  connection_name = [];
  server_name = [];
  row_num = pos 0;
  column_num = pos 0;
  retrieved = false;
}

abbrev two_records : DiagnosticRecordStorage
two_records = record {
  row_count = pos 0;
  dynamic_function = [];
  dynamic_function_code = pos 0;
  result = SqlResult.error;
  rows_affected = pos 0;
  status_records = seen_warning ∷ new_error ∷ [];
}

-- A buffer that keeps what was put into it.
abbrev keeping : DataBuffer
keeping = record {
  Buffer = List Put;
  put_int32 = λ n b. int32 n ∷ b;
  put_int64 = λ n b. int64 n ∷ b;
  put_string = λ t b. string t ∷ b;
  result_length = λ b. pos (length b);
  code_number = λ r. pos 0;
}

sql_error-pending_example :
    ((pending two_records.status_records ≡ []) × (sql_error two_records ≡ (none, two_records)))
    ⊎ ((r : DiagnosticRecord) × (rs : List DiagnosticRecord) × (s' : DiagnosticRecordStorage)
        × (new_error ∷ [] ≡ r ∷ rs)
        × (sql_error two_records ≡ (some (output_of r), s'))
        × (pending s'.status_records ≡ rs)
        × (length s'.status_records ≡ 2))
sql_error-pending_example = sql_error-pending two_records

sql_errors-pending_example :
    (sql_errors 3 two_records).0 ≡ some (output_of new_error) ∷ none ∷ none ∷ []
sql_errors-pending_example = sql_errors-pending 2 two_records

length_of_new_error :
    (length (get_sql_state new_error) ≡ 5)
    ⊎ (HasNoText shy000_general_error × (get_sql_state new_error ≡ []))
length_of_new_error = get_sql_state-length new_error

same_text_same_state :
    (shy000_general_error ≡ shy000_general_error)
    ⊎ (HasNoText shy000_general_error × HasNoText shy000_general_error)
same_text_same_state =
    get_sql_state-injective new_error (record new_error { message = [] })
      (unfold get_sql_state in refl)

abbrev unsupported : DiagnosticRecord
unsupported = record new_error { sql_state = sim001_function_not_supported }

origin_of_unsupported : get_subclass_origin unsupported ≡ origin_odbc_3_0
unfolding get_class_origin
origin_of_unsupported = class_origin-subclass_origin unsupported refl

get_field-cases_example :
    ((p : Put) × Reads (pos 2) status_sqlstate two_records p
      × (get_field keeping (pos 2) status_sqlstate two_records []
          ≡ (SqlResult.success, put keeping p [])))
    ⊎ (((p : Put) → ¬ IsHeader two_records status_sqlstate p)
        × (¬ InRange (pos 2) two_records)
        × (get_field keeping (pos 2) status_sqlstate two_records [] ≡ (no_data, [])))
    ⊎ ((status_sqlstate ≡ DiagnosticField.unknown)
        × InRange (pos 2) two_records
        × (get_field keeping (pos 2) status_sqlstate two_records [] ≡ (SqlResult.error, [])))
get_field-cases_example = get_field-cases keeping (pos 2) status_sqlstate two_records []

abbrev roomy : DiagRecArgs
roomy = record {
  has_state = true;
  has_native = true;
  has_message = true;
  message_room = pos 64;
  has_length = true;
}

length-replicate : (n x : ℕ) → length (replicate n x) ≡ n
length-replicate zero x = refl
length-replicate (suc n) x = ap suc (length-replicate n x)

abbrev long_error : DiagnosticRecord
long_error = record new_error { message = replicate 40000 65 }

abbrev one_long : DiagnosticRecordStorage
one_long = record two_records { status_records = long_error ∷ [] }

-- A buffer without room.
abbrev no_room : DiagRecArgs
no_room = record roomy { message_room = pos 0 }

sql_get_diag_rec_long_message_example :
    (sql_get_diag_rec ascii 2 sql_handle_stmt no_room (pos 1) one_long).0 ≡ sql_success
unfolding get_status_record
sql_get_diag_rec_long_message_example =
    sql_get_diag_rec_long_message ascii 2 sql_handle_stmt no_room 0 1 one_long long_error tt refl
      refl (omega (arith, length-replicate 40000 65)) (omega (arith, length-replicate 40000 65))
      refl
