-- ===== src/Diagnostic/DiagRecLaws.antt =====
-- When `SQLGetDiagRec` reports that the caller has the whole message.
use amazon_timestream_odbc_d.Base.{
  le→ltb, length, get_elem?, ℤ, pos, ℕ, zero, suc, ◌≤◌, ◌<◌, ◌≡◌, refl, ◌∙◌, true, some, List, [],
  ◌∷◌, arith,
}
use amazon_timestream_odbc_d.SqlTypes.{sql_success}
use amazon_timestream_odbc_d.Utility.{Codecvt}
use amazon_timestream_odbc_d.Diagnostic.Record.{DiagnosticRecord}
use amazon_timestream_odbc_d.Diagnostic.Storage.{
  get_status_records_number, get_status_record, DiagnosticRecordStorage,
}
use amazon_timestream_odbc_d.Diagnostic.DiagRec.{
  too_short, message_part, record_part, diag_rec, sql_get_diag_rec, HandleType, DiagRecArgs,
  sql_handle_env, sql_handle_dbc, sql_handle_stmt, sql_handle_desc,
}

abbrev pub IsHandle : HandleType → Type 0
IsHandle (HandleType.other n) = ⊥
IsHandle _ = Unit {0}

in_range :
    (rs : List DiagnosticRecord) (i : ℕ) {r : DiagnosticRecord}
    → get_elem? rs i ≡ some r
    → i < length rs
in_range [] i e = cc
in_range (x ∷ rs) zero e = omega arith
in_range (x ∷ rs) (suc i) e = omega (arith, in_range rs i e)

diag_rec_found :
    (codecvt : Codecvt) (w : ℕ) (a : DiagRecArgs) (room : ℕ) (n : ℕ) (s : DiagnosticRecordStorage)
    (r : DiagnosticRecord)
    → a.message_room ≡ pos room
    → get_status_record n s ≡ some r
    → diag_rec codecvt w a (pos n) s ≡ record_part codecvt w a room (some r)
unfolding diag_rec get_status_record get_status_records_number
diag_rec_found codecvt w a room zero s r fits found = cc
diag_rec_found codecvt w a room (suc i) s r fits found =
    rw (fits, diag_rec)
      (rw
        (
          le→ltb (length s.status_records) (suc i) (in_range s.status_records i found),
          le→ltb (suc i) 1 (omega arith),
        )
        (rw found))

sql_get_diag_rec_handle :
    (codecvt : Codecvt) (w : ℕ) (a : DiagRecArgs) (n : ℤ) (s : DiagnosticRecordStorage)
    (h : HandleType)
    → IsHandle h
    → sql_get_diag_rec codecvt w h a n s ≡ diag_rec codecvt w a n s
unfolding sql_get_diag_rec
sql_get_diag_rec_handle codecvt w a n s sql_handle_env v = refl
sql_get_diag_rec_handle codecvt w a n s sql_handle_dbc v = refl
sql_get_diag_rec_handle codecvt w a n s sql_handle_stmt v = refl
sql_get_diag_rec_handle codecvt w a n s sql_handle_desc v = refl
sql_get_diag_rec_handle codecvt w a n s (HandleType.other m) v = absurd v

module _ (codecvt : Codecvt) (w : ℕ) (h : HandleType) (a : DiagRecArgs) (room n : ℕ)
    (s : DiagnosticRecordStorage) (r : DiagnosticRecord) (handle : IsHandle h)
    (fits : a.message_room ≡ pos room) (found : get_status_record n s ≡ some r) where
  found_part : sql_get_diag_rec codecvt w h a (pos n) s ≡ record_part codecvt w a room (some r)
  found_part =
      sql_get_diag_rec_handle codecvt w a (pos n) s h handle
      ∙ diag_rec_found codecvt w a room n s r fits found

  -- For such a record with a message of 32767 to 65534 bytes the call returns SQL_SUCCESS for any
  -- buffer, even for one with no room at all: the size no longer fits in the SQLSMALLINT that it is
  -- compared as.
  pub sql_get_diag_rec_long_message :
      32767 ≤ length r.message
      → length r.message < 65535
      → a.has_message ≡ true
      → (sql_get_diag_rec codecvt w h a (pos n) s).0 ≡ sql_success
  unfolding record_part message_part too_short
  sql_get_diag_rec_long_message low high m = rw found_part (ground arith)
