-- ===== src/Descriptor/Answers.antt =====
-- src/odbc/src/descriptor.cpp: which calls of SQLSetDescField succeed, and what a refused one leaves.
use amazon_timestream_odbc_d.Base.{
  ◌==◌, if◌then◌else◌, Bool-cases, eqb_ℤ, leb_ℤ, to_signed, to_unsigned, ℤ, pos, negsuc, Text,
  bytes, ℕ, ◌≡◌, refl, sym, ap, ◌∙◌, ◌⊎◌, inl, inr, Bool, true, false, not, ◌&&◌, ◌||◌, List, [],
  ◌∷◌, ◌++◌, arith,
}
use amazon_timestream_odbc_d.SqlTypes.{
  SqlResult, SqlState, shy000_general_error, shy091_invalid_descr_field_id,
}
use amazon_timestream_odbc_d.Diagnostic.Record.{make_record, DiagnosticRecord}
use amazon_timestream_odbc_d.Diagnostic.Storage.{
  set_header_record, add_record, add_status_record, reset, DiagnosticRecordStorage,
}
use amazon_timestream_odbc_d.Descriptor.{
  new_record, store_at, record_of, TypeCode, DescriptorRecord, Descriptor,
}
use amazon_timestream_odbc_d.Descriptor.Codes.{type_at, interval_code_at, integer_at}
use amazon_timestream_odbc_d.Descriptor.Types.{
  is_valid_concise_type, is_valid_type, is_valid_interval_code, sql_type_to_string,
  interval_code_to_string,
}
use amazon_timestream_odbc_d.Descriptor.Operations.{
  set_concise_type, set_desc_type, is_string_type, is_interval_type, apply_setting, finish_setting,
  is_bad_length, refuse_length, internal_set_field, set_field, Setting, Changed, Call,
  desc_header_field, desc_concise_type, desc_data_ptr, desc_datetime_interval_code,
  desc_datetime_interval_precision, desc_indicator_ptr, desc_octet_length_ptr, desc_octet_length,
  desc_length, desc_type_field, other_field, refused, changed,
}
use amazon_timestream_odbc_d.Descriptor.Laws.{is_verbose, eqb_ℤ-eq, value_at-store_at}
use amazon_timestream_odbc_d.AppBuffer.Printing.{print_int}

-- The settings that a record admits. A concise type is one that is not verbose itself, and whose
-- verbose type is a type of the driver.
abbrev pub admits : Setting → DescriptorRecord → Bool
admits desc_header_field r = false
admits (desc_concise_type buffer) r =
    not (is_verbose (type_at buffer)) && is_valid_type (set_concise_type (type_at buffer) r).type
admits (desc_data_ptr p) r = true
admits (desc_datetime_interval_code buffer) r =
    is_valid_interval_code r.type (interval_code_at buffer)
admits (desc_datetime_interval_precision buffer) r = is_interval_type r.type
admits (desc_indicator_ptr p) r = true
admits (desc_octet_length_ptr p) r = true
admits (desc_octet_length n) r = is_string_type r.concise_type
admits (desc_length n) r = is_string_type r.concise_type
admits (desc_type_field buffer) r = is_valid_type (type_at buffer)
admits (other_field id) r = false

-- A length of a buffer: not negative, `SQL_NTS` or `SQL_IS_POINTER`.
abbrev pub is_length : ℤ → Bool
is_length len = leb_ℤ (pos 0) len || (eqb_ℤ len (negsuc 2) || eqb_ℤ len (negsuc 3))

-- The state of the error of a setting that a record does not admit.
abbrev pub refusal_state : Setting → SqlState
refusal_state desc_header_field = shy091_invalid_descr_field_id
refusal_state _ = shy000_general_error

-- The records of a descriptor are those of another one, but for the record of one number.
abbrev pub SameBut : ℤ → Descriptor → Descriptor → Type 0
SameBut k d e = (j : ℤ) → (eqb_ℤ j k ≡ true) ⊎ (record_of j e.records ≡ record_of j d.records)

-- A call succeeds where the length and the setting are admitted, and leaves no diagnostics; else it
-- fails, leaves one record of diagnostics with its state, and each record of the descriptor as it was.
abbrev pub IsAnswer : Descriptor → ℤ → ℤ → Setting → Call → Type 0
IsAnswer d k len s c =
    (((is_length len && admits s (record_of k d.records)) ≡ true)
      × (c.result ≡ SqlResult.success)
      × (c.after.diag.status_records ≡ [])
      × SameBut k d c.after)
    ⊎ (((is_length len && admits s (record_of k d.records)) ≡ false)
        × (c.result ≡ SqlResult.error)
        × ((r : DiagnosticRecord) × (c.after.diag.status_records ≡ r ∷ [])
            × (r.sql_state ≡ (if is_length len then refusal_state s else shy000_general_error)))
        × ((j : ℤ) → record_of j c.after.records ≡ record_of j d.records))

-- The same of the change that a setting makes to a record.
abbrev Applied : Setting → DescriptorRecord → Changed → Type 0
Applied s r (refused state message r') = (admits s r ≡ false) × (state ≡ refusal_state s) × (r' ≡ r)
Applied s r (changed unbinds r') = admits s r ≡ true

concise_admits :
    (t : TypeCode) (r : DescriptorRecord)
    → (not (is_verbose t) && is_valid_type (set_concise_type t r).type) ≡ is_valid_concise_type t
unfolding is_valid_type set_concise_type is_valid_concise_type
concise_admits t r = ground arith

if_Applied :
    (s : Setting) (r r' : DescriptorRecord) (test : Bool) (message : Text)
    → admits s r ≡ test
    → refusal_state s ≡ shy000_general_error
    → Applied s r (if test then changed false r' else refused shy000_general_error message r)
if_Applied s r r' true message e state = e
if_Applied s r r' false message e state = (e, sym state, refl)

data_ptr-Applied :
    (p : ℕ) (r r1 r2 : DescriptorRecord) (null : Bool)
    → Applied (desc_data_ptr p) r (if null then changed true r1 else changed false r2)
data_ptr-Applied p r r1 r2 true = refl
data_ptr-Applied p r r1 r2 false = refl

apply_setting-Applied :
    (s : Setting) (len : ℤ) (r : DescriptorRecord) → Applied s r (apply_setting s len r)
unfolding apply_setting
apply_setting-Applied desc_header_field len r = (refl, refl, refl)
apply_setting-Applied (desc_concise_type buffer) len r =
    if_Applied (desc_concise_type buffer) r (set_concise_type (type_at buffer) r)
      (is_valid_concise_type (type_at buffer))
      (bytes "Invalid concise type " ++ sql_type_to_string (type_at buffer))
      (concise_admits (type_at buffer) r) refl
apply_setting-Applied (desc_data_ptr p) len r =
    data_ptr-Applied p r (record r { length_of_data = 0; octet_length = pos 0 })
      (record r { data_ptr = p; length_of_data = to_unsigned 64 len; octet_length = len }) (p == 0)
apply_setting-Applied (desc_datetime_interval_code buffer) len r =
    if_Applied (desc_datetime_interval_code buffer) r
      (record r { datetime_interval_code = interval_code_at buffer })
      (is_valid_interval_code r.type (interval_code_at buffer))
      (bytes "Invalid interval code "
        ++ interval_code_to_string (interval_code_at buffer)
        ++ bytes " for type "
        ++ sql_type_to_string r.type)
      refl refl
apply_setting-Applied (desc_datetime_interval_precision buffer) len r =
    if_Applied (desc_datetime_interval_precision buffer) r
      (record r { datetime_interval_precision = integer_at buffer }) (is_interval_type r.type)
      (bytes "Interval precision could only be set when SQL_DESC_TYPE is set to SQL_INTERVAL") refl
      refl
apply_setting-Applied (desc_indicator_ptr p) len r = refl
apply_setting-Applied (desc_octet_length_ptr p) len r = refl
apply_setting-Applied (desc_octet_length n) len r =
    if_Applied (desc_octet_length n) r
      (record r { length_of_data = n; octet_length = to_signed 64 (pos n) })
      (is_string_type r.concise_type)
      (bytes "SQL_DESC_LENGTH could not be set for fixed length type "
        ++ sql_type_to_string r.concise_type)
      refl refl
apply_setting-Applied (desc_length n) len r =
    if_Applied (desc_length n) r
      (record r { length_of_data = n; octet_length = to_signed 64 (pos n) })
      (is_string_type r.concise_type)
      (bytes "SQL_DESC_LENGTH could not be set for fixed length type "
        ++ sql_type_to_string r.concise_type)
      refl refl
apply_setting-Applied (desc_type_field buffer) len r =
    if_Applied (desc_type_field buffer) r (set_desc_type (type_at buffer) r)
      (is_valid_type (type_at buffer))
      (bytes "Invalid type " ++ sql_type_to_string (type_at buffer)) refl refl
apply_setting-Applied (other_field id) len r = (refl, refl, refl)

stored_back :
    (j k : ℤ) (rs : List (ℤ × DescriptorRecord))
    → record_of j (store_at k (record_of k rs) rs) ≡ record_of j rs
stored_back j k rs =
    value_at-store_at new_record j k (record_of k rs) rs ∙ same (Bool-cases (eqb_ℤ j k))
  where
    same :
        (eqb_ℤ j k ≡ true) ⊎ (eqb_ℤ j k ≡ false)
        → (if eqb_ℤ j k then record_of k rs else record_of j rs) ≡ record_of j rs
    same (inl e) = rw e (ap (λ i. record_of i rs) (sym (eqb_ℤ-eq j k e)))
    same (inr e) = rw e refl

stored-SameBut :
    (k : ℤ) (r : DescriptorRecord) (rs : List (ℤ × DescriptorRecord)) (j : ℤ)
    → (eqb_ℤ j k ≡ true) ⊎ (record_of j (store_at k r rs) ≡ record_of j rs)
stored-SameBut k r rs j = elim (Bool-cases (eqb_ℤ j k)) [
  | inl e ↦ inl e
  | inr e ↦ inr (value_at-store_at new_record j k r rs ∙ rw e refl)
]

appended :
    (g : DiagnosticRecordStorage) (state : SqlState) (message : Text)
    → g.status_records ≡ []
    → (r : DiagnosticRecord) × ((add_status_record state message g).status_records ≡ r ∷ [])
      × (r.sql_state ≡ state)
unfolding add_status_record add_record
appended g state message e = (make_record state message [] [] (pos 0) (pos 0), rw e refl, refl)

bad_length : (len : ℤ) → is_bad_length len ≡ not (is_length len)
bad_length len = ground arith

refuse_length-IsAnswer :
    (d : Descriptor) (k len : ℤ) (s : Setting)
    → d.diag.status_records ≡ []
    → is_length len ≡ false
    → IsAnswer d k len s (refuse_length d len)
refuse_length-IsAnswer d k len s e bad = rw bad (
    inr (
      refl,
      refl,
      appended d.diag shy000_general_error (bytes "Invalid buffer length " ++ print_int len) e,
      λ j. refl,
    ))

finish-IsAnswer :
    (d : Descriptor) (k len : ℤ) (s : Setting) (c : Changed)
    → d.diag.status_records ≡ []
    → is_length len ≡ true
    → Applied s (record_of k d.records) c
    → IsAnswer d k len s (finish_setting d k c)
finish-IsAnswer d k len s (refused state message r) e good (denied, same_state, same) = rw good (
    let (q, one, its) = appended d.diag state message e in
    inr (
      denied,
      refl,
      (q, one, its ∙ same_state),
      λ j. ap (λ x. record_of j (store_at k x d.records)) same ∙ stored_back j k d.records,
    ))
finish-IsAnswer d k len s (changed unbinds r) e good admitted =
    rw good (inl (admitted, refl, e, stored-SameBut k r d.records))

-- A call of SQLSetDescField succeeds exactly where the length is not negative, SQL_NTS or SQL_IS_POINTER,
-- and the record admits the setting. It then leaves no diagnostics and changes at most the record of
-- its number. Else it fails, leaves one record of diagnostics, of state HY091 where the length is
-- good and the field is of the header, and of HY000 otherwise, and changes no record of the descriptor.
pub set_field-IsAnswer :
    (d : Descriptor) (k len : ℤ) (s : Setting) → IsAnswer d k len s (set_field d k len s)
unfolding set_field internal_set_field reset set_header_record
set_field-IsAnswer d k len s =
    let clear = record d { diag = reset d.diag } in
    let c = apply_setting s len (record_of k d.records) in
    elim (Bool-cases (is_length len)) [
      | inl good ↦ rw (bad_length len ∙ ap not good) (
          finish-IsAnswer clear k len s c refl good
            (apply_setting-Applied s len (record_of k d.records)))
      | inr bad ↦ rw (bad_length len ∙ ap not bad) (refuse_length-IsAnswer clear k len s refl bad)
    ]
