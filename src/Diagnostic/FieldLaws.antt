-- ===== src/Diagnostic/FieldLaws.antt =====
-- Which diagnostic fields a caller can read.
use amazon_timestream_odbc_d.Base.{
  length, get_elem?, ℤ, pos, negsuc, ℕ, zero, suc, ◌≤◌, ◌<◌, ◌≡◌, refl, ◌⊎◌, inl, inr, none, some,
  List, [], ◌∷◌, dec_lt, arith,
}
use amazon_timestream_odbc_d.SqlTypes.{
  sql_result_to_return_code, SqlResult, DiagnosticField, no_data, header_cursor_row_count,
  header_dynamic_function, header_dynamic_function_code, header_number, header_returncode,
  header_row_count, status_class_origin, status_column_number, status_connection_name,
  status_message_text, status_native, status_row_number, status_server_name, status_sqlstate,
  status_subclass_origin,
}
use amazon_timestream_odbc_d.Diagnostic.Record.{
  get_sql_state, get_class_origin, get_subclass_origin, DiagnosticRecord,
}
use amazon_timestream_odbc_d.Diagnostic.Storage.{
  get_return_code, get_status_records_number, DiagnosticRecordStorage,
}
use amazon_timestream_odbc_d.Diagnostic.Fields.{
  header_put, status_put, record_at, put, put_status, get_status_field, get_field, DataBuffer, Put,
  int32, int64, code, string,
}

-- The values of the fields of the header, and the call of the buffer that gives each its type.
pub data IsHeader (s : DiagnosticRecordStorage) : DiagnosticField → Put → Type 0 where
  row_count : IsHeader s header_cursor_row_count (int64 s.row_count)
  dynamic_function : IsHeader s header_dynamic_function (string s.dynamic_function)
  dynamic_function_code : IsHeader s header_dynamic_function_code (int32 s.dynamic_function_code)
  number : IsHeader s header_number (int32 (pos (length s.status_records)))
  returncode : IsHeader s header_returncode (code (sql_result_to_return_code s.result))
  affected : IsHeader s header_row_count (int64 s.rows_affected)

-- The same of the fields of a record of diagnostics.
pub data IsStatus (r : DiagnosticRecord) : DiagnosticField → Put → Type 0 where
  class_origin : IsStatus r status_class_origin (string (get_class_origin r))
  column_number : IsStatus r status_column_number (int32 r.column_num)
  connection_name : IsStatus r status_connection_name (string r.connection_name)
  message_text : IsStatus r status_message_text (string r.message)
  native : IsStatus r status_native (int32 (pos 0))
  row_number : IsStatus r status_row_number (int64 r.row_num)
  server_name : IsStatus r status_server_name (string r.server_name)
  sqlstate : IsStatus r status_sqlstate (string (get_sql_state r))
  subclass_origin : IsStatus r status_subclass_origin (string (get_subclass_origin r))

field_cases :
    (f : DiagnosticField) (s : DiagnosticRecordStorage)
    → ((p : Put) × IsHeader s f p × (header_put f s ≡ some p))
      ⊎ ((header_put f s ≡ none)
          × ((r : DiagnosticRecord) → (p : Put) × IsStatus r f p × (status_put f r ≡ some p)))
      ⊎ ((f ≡ DiagnosticField.unknown)
          × (header_put f s ≡ none)
          × ((r : DiagnosticRecord) → status_put f r ≡ none))
unfolding header_put status_put get_return_code get_status_records_number
field_cases header_cursor_row_count s = inl (_, row_count, refl)
field_cases header_dynamic_function s = inl (_, dynamic_function, refl)
field_cases header_dynamic_function_code s = inl (_, dynamic_function_code, refl)
field_cases header_number s = inl (_, number, refl)
field_cases header_returncode s = inl (_, returncode, refl)
field_cases header_row_count s = inl (_, affected, refl)
field_cases status_class_origin s = inr (inl (refl, λ r. (_, class_origin, refl)))
field_cases status_column_number s = inr (inl (refl, λ r. (_, column_number, refl)))
field_cases status_connection_name s = inr (inl (refl, λ r. (_, connection_name, refl)))
field_cases status_message_text s = inr (inl (refl, λ r. (_, message_text, refl)))
field_cases status_native s = inr (inl (refl, λ r. (_, native, refl)))
field_cases status_row_number s = inr (inl (refl, λ r. (_, row_number, refl)))
field_cases status_server_name s = inr (inl (refl, λ r. (_, server_name, refl)))
field_cases status_sqlstate s = inr (inl (refl, λ r. (_, sqlstate, refl)))
field_cases status_subclass_origin s = inr (inl (refl, λ r. (_, subclass_origin, refl)))
field_cases DiagnosticField.unknown s = inr (inr (refl, refl, λ r. refl))

header_put_total :
    {f : DiagnosticField} {p : Put} (s : DiagnosticRecordStorage)
    → IsHeader s f p
    → header_put f s ≡ some p
unfolding header_put get_return_code get_status_records_number
header_put_total s row_count = refl
header_put_total s dynamic_function = refl
header_put_total s dynamic_function_code = refl
header_put_total s number = refl
header_put_total s returncode = refl
header_put_total s affected = refl

not-IsHeader :
    (f : DiagnosticField) (p : Put) (s : DiagnosticRecordStorage)
    → header_put f s ≡ none
    → ¬ IsHeader s f p
not-IsHeader f p s e h = cc (e, header_put_total s h)

-- A record number that a caller may ask for.
abbrev pub InRange : ℤ → DiagnosticRecordStorage → Type 0
InRange (negsuc n) s = ⊥
InRange (pos n) s = (1 ≤ n) × (n ≤ length s.status_records)

-- The record of a number, counted from 1.
abbrev pub IsAt : ℤ → DiagnosticRecordStorage → DiagnosticRecord → Type 0
IsAt (negsuc n) s r = ⊥
IsAt (pos zero) s r = ⊥
IsAt (pos (suc i)) s r = get_elem? s.status_records i ≡ some r

get_elem?_total {ℓ} :
    {A : Type ℓ} (xs : List A) (i : ℕ) → i < length xs → (a : A) × (get_elem? xs i ≡ some a)
get_elem?_total [] i h = absurd (omega arith)
get_elem?_total (x ∷ xs) zero h = (x, refl)
get_elem?_total (x ∷ xs) (suc i) h = get_elem?_total xs i (omega arith)

record_at-cases :
    (n : ℤ) (s : DiagnosticRecordStorage)
    → (InRange n s × ((r : DiagnosticRecord) × IsAt n s r × (record_at n s ≡ some r)))
      ⊎ ((¬ InRange n s) × (record_at n s ≡ none))
unfolding record_at
record_at-cases (negsuc n) s = inr (λ h. h, refl)
record_at-cases (pos zero) s = inr (λ h. omega arith, refl)
record_at-cases (pos (suc i)) s = elim (dec_lt i (length s.status_records)) [
  | yes h ↦
      let (r, e) = get_elem?_total s.status_records i h in
      inl ((omega arith, omega arith), (r, e, ground (arith, e)))
  | no h ↦ inr (λ k. h k.1, ground arith)
]

-- The value of a field that a caller can read: of any field of the header, and of any field of the
-- record of a number.
abbrev pub Reads : ℤ → DiagnosticField → DiagnosticRecordStorage → Put → Type 0
Reads n f s p = IsHeader s f p ⊎ ((r : DiagnosticRecord) × IsAt n s r × IsStatus r f p)

module _ (d : DataBuffer) (n : ℤ) (f : DiagnosticField) (s : DiagnosticRecordStorage)
    (b : d.Buffer) where
  -- `GetField` answers each field of the header, and each field of a record that is there, with
  -- success and by one call of the buffer, which puts the value of this field of the header or of the
  -- record; any other request calls the buffer not at all, with AI_NO_DATA for a record that is not
  -- there, and AI_ERROR for a field that the driver does not know.
  pub get_field-cases :
      ((p : Put) × Reads n f s p × (get_field d n f s b ≡ (SqlResult.success, put d p b)))
      ⊎ (((p : Put) → ¬ IsHeader s f p) × (¬ InRange n s) × (get_field d n f s b ≡ (no_data, b)))
      ⊎ ((f ≡ DiagnosticField.unknown) × InRange n s × (get_field d n f s b ≡ (SqlResult.error, b)))
  unfolding get_field get_status_field put_status
  get_field-cases = elim (field_cases f s) [
    | inl (p, h, e) ↦ inl (p, inl h, rw (e, get_field))
    | inr (inl (e, st)) ↦ elim (record_at-cases n s) [
      | inl (h, (r, at, g)) ↦
          let (p, k, put_it) = st r in inl (p, inr (r, at, k), rw (e, g, put_it, get_field))
      | inr (h, g) ↦ inr (inl (λ p. not-IsHeader f p s e, h, rw (e, get_field) (rw g)))
    ]
    | inr (inr (u, e, st)) ↦ elim (record_at-cases n s) [
      | inl (h, (r, at, g)) ↦ inr (inr (u, h, rw (e, get_field) (rw (g, st r))))
      | inr (h, g) ↦ inr (inl (λ p. not-IsHeader f p s e, h, rw (e, get_field) (rw g)))
    ]
  ]
