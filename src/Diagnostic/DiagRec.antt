-- ===== src/Diagnostic/DiagRec.antt =====
-- `SQLGetDiagRec` and `SQLGetDiagField` (src/odbc/src/odbc.cpp).
use amazon_timestream_odbc_d.Base.{
  ltb, if◌then◌else◌, length, ℤ, pos, negsuc, Text, ℕ, ◌+◌, ◌-◌, ◌%◌, Bool, true, false, not, ◌&&◌,
  ◌||◌, Option, none, some, List, [],
}
use amazon_timestream_odbc_d.SqlTypes.{
  sql_result_to_return_code, diagnostic_field_to_internal, SqlResult, ReturnCode, DiagnosticId,
  no_data, sql_success, sql_success_with_info, sql_no_data, sql_error, sql_invalid_handle,
}
use amazon_timestream_odbc_d.Utility.{copy_string_to_buffer, Codecvt}
use amazon_timestream_odbc_d.Diagnostic.Record.{get_sql_state, DiagnosticRecord}
use amazon_timestream_odbc_d.Diagnostic.Storage.{
  get_status_records_number, get_status_record, DiagnosticRecordStorage,
}
use amazon_timestream_odbc_d.Diagnostic.Fields.{get_field, DataBuffer}

-- The handle types of the ODBC interface, and any other `SQLSMALLINT`.
pub data HandleType : Type 0 where
  sql_handle_env sql_handle_dbc sql_handle_stmt sql_handle_desc : HandleType
  other : ℤ → HandleType

-- `static_cast<SQLSMALLINT>` of a size: the low 16 bits, read as a signed number.
pub to_int16 : ℕ → ℤ
to_int16 n = let m = n % 65536 in if ltb m 32768 then pos m else negsuc (65535 - m)

-- What one call writes: the SQLSTATE and the message as they reach the buffers, the native code
-- and the length of the message, where the caller passed a pointer for it.
pub record DiagRecOutput : Type 0 where
  pub state_written : List ℕ
  pub native_error : Option ℤ
  pub message_written : List ℕ
  pub message_length : Option ℤ

abbrev pub no_output : DiagRecOutput
no_output = record {
  state_written = [];
  native_error = none;
  message_written = [];
  message_length = none;
}

-- The pointers that are not null, and the length of the message buffer in characters.
pub record DiagRecArgs : Type 0 where
  pub has_state : Bool
  pub has_native : Bool
  pub has_message : Bool
  pub message_room : ℤ  -- SQLSMALLINT
  pub has_length : Bool

-- `msgBufferLen < static_cast<SQLSMALLINT>(errMsg.size() + 1)`, for a length that is not negative.
unfoldable pub too_short : ℕ → ℕ → Bool
unfolding to_int16
too_short room size = elim (to_int16 (size + 1)) [ pos n ↦ ltb room n | negsuc n ↦ false ]

module _ (codecvt : Codecvt) (wchar_size : ℕ) where
  unfoldable pub message_part : DiagRecArgs → ℕ → DiagRecOutput → Text → ReturnCode × DiagRecOutput
  unfolding too_short copy_string_to_buffer
  message_part a room out message =
      let c = copy_string_to_buffer codecvt wchar_size message a.has_message room false in
      let out' = record out {
        message_written = c.written;
        message_length = some (to_int16 c.returned);
      } in
      if not a.has_message || too_short room (length message)
      then (if a.has_length then (sql_success_with_info, out') else (sql_error, out))
      else (sql_success, if a.has_length then out' else record out { message_written = c.written })

  unfoldable pub record_part :
      DiagRecArgs → ℕ → Option DiagnosticRecord → ReturnCode × DiagRecOutput
  unfolding message_part get_sql_state
  record_part a room none = (sql_no_data, no_output)
  record_part a room (some r) =
      message_part a room
        (record no_output {
          state_written =
              if a.has_state
              then (copy_string_to_buffer codecvt wchar_size (get_sql_state r) true 6 false).written
              else [];
          native_error = if a.has_native then some (pos 0) else none;
        })
        r.message

  unfoldable pub diag_rec : DiagRecArgs → ℤ → DiagnosticRecordStorage → ReturnCode × DiagRecOutput
  unfolding record_part get_status_record get_status_records_number
  diag_rec a (negsuc n) s = (sql_error, no_output)
  diag_rec a (pos n) s = elim a.message_room [
    | negsuc m ↦ (sql_error, no_output)
    | pos room ↦
        if ltb n 1
        then (sql_error, no_output)
        else if ltb (get_status_records_number s) n
        then (sql_no_data, no_output)
        else record_part a room (get_status_record n s)
  ]

  -- A null handle is refused like an unknown handle type, and is not modelled.
  unfoldable pub sql_get_diag_rec :
      HandleType → DiagRecArgs → ℤ → DiagnosticRecordStorage → ReturnCode × DiagRecOutput
  unfolding diag_rec
  sql_get_diag_rec (other h) a n s = (sql_invalid_handle, no_output)
  sql_get_diag_rec sql_handle_env a n s = diag_rec a n s
  sql_get_diag_rec sql_handle_dbc a n s = diag_rec a n s
  sql_get_diag_rec sql_handle_stmt a n s = diag_rec a n s
  sql_get_diag_rec sql_handle_desc a n s = diag_rec a n s

-- The switch of `SQLGetDiagField`: other handles are refused before the records are read.
dispatch {ℓ} : {B : Type ℓ} → HandleType → B → SqlResult × B → SqlResult × B
dispatch sql_handle_env b p = p
dispatch sql_handle_dbc b p = p
dispatch sql_handle_stmt b p = p
dispatch _ b p = (no_data, b)

abbrev is_plain_success : SqlResult → Bool
is_plain_success SqlResult.success = true
is_plain_success _ = false

module _ (d : DataBuffer) where
  -- The return code, the buffer, and the value for `*resLen` where it is written.
  unfoldable pub sql_get_diag_field :
      HandleType
      → ℤ
      → DiagnosticId
      → DiagnosticRecordStorage
      → Bool
      → d.Buffer
      → ReturnCode × d.Buffer × Option ℤ
  unfolding dispatch get_field diagnostic_field_to_internal sql_result_to_return_code
  sql_get_diag_field h rec_num diag_id s has_length b =
      let field = diagnostic_field_to_internal diag_id in
      let (r, b') = dispatch h b (get_field d rec_num field s b) in
      (
        sql_result_to_return_code r,
        b',
        if has_length && is_plain_success r then some (d.result_length b') else none,
      )
