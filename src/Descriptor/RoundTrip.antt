-- ===== src/Descriptor/RoundTrip.antt =====
-- A field that has been set is read back.
use amazon_timestream_odbc_d.Base.{
  ◌==◌, if◌then◌else◌, eqb_ℤ, to_signed, to_unsigned, ℤ, pos, Text, bytes, ℕ, ◌≡◌, refl, ap, subst,
  ◌∙◌, Bool, true, false, Option, none, some, List, [], ◌∷◌, ◌++◌, arith,
}
use amazon_timestream_odbc_d.SqlTypes.{SqlResult, SqlState, shy000_general_error}
use amazon_timestream_odbc_d.Descriptor.{
  new_record, store_at, record_of, TypeCode, DescType, DescriptorRecord, Descriptor, no_code, ard,
  apd,
}
use amazon_timestream_odbc_d.Descriptor.Codes.{type_at, interval_code_at, integer_at}
use amazon_timestream_odbc_d.Descriptor.Types.{
  is_valid_concise_type, is_valid_type, is_valid_interval_code, sql_type_to_string,
  interval_code_to_string,
}
use amazon_timestream_odbc_d.Descriptor.Operations.{
  set_concise_type, set_desc_type, is_string_type, set_length, is_interval_type, apply_setting,
  finish_setting, is_bad_length, refuse_length, internal_set_field, set_field, Setting, Changed,
  Call, desc_header_field, desc_concise_type, desc_data_ptr, desc_datetime_interval_code,
  desc_datetime_interval_precision, desc_indicator_ptr, desc_octet_length_ptr, desc_octet_length,
  desc_length, desc_type_field, other_field, refused, changed,
}
use amazon_timestream_odbc_d.Descriptor.Reading.{
  allowed_types, type_among, is_allowed, field_value, internal_get_field, FieldId, FieldValue,
  field_concise_type, field_data_ptr, field_datetime_interval_code,
  field_datetime_interval_precision, field_indicator_ptr, field_length, field_octet_length,
  field_octet_length_ptr, field_type, signed, unsigned, pointer, type_code, interval_code,
}
use amazon_timestream_odbc_d.Descriptor.Laws.{value_at-store_at}
use amazon_timestream_odbc_d.Diagnostic.Storage.{set_header_record, reset, DiagnosticRecordStorage}
use amazon_timestream_odbc_d.Descriptor.Calls.{if_either}

-- The field that a setting is for, and the value that its pointer stands for in the type of the
-- field: the number of its low 16 bits for types and codes, and of its low 32 bits for the precision.
-- A null data pointer gives none.
abbrev pub given : Setting → Option (FieldId × FieldValue)
given desc_header_field = none
given (desc_concise_type buffer) = some (field_concise_type, type_code (type_at buffer))
given (desc_data_ptr p) = if p == 0 then none else some (field_data_ptr, pointer p)
given (desc_datetime_interval_code buffer) =
    some (field_datetime_interval_code, interval_code (interval_code_at buffer))
given (desc_datetime_interval_precision buffer) =
    some (field_datetime_interval_precision, signed (integer_at buffer))
given (desc_indicator_ptr p) = some (field_indicator_ptr, pointer p)
given (desc_octet_length_ptr p) = some (field_octet_length_ptr, pointer p)
given (desc_octet_length n) = some (field_octet_length, signed (to_signed 64 (pos n)))
given (desc_length n) = some (field_length, unsigned n)
given (desc_type_field buffer) = some (field_type, type_code (type_at buffer))
given (other_field id) = none

-- A record holds the value that a field is given.
abbrev Holds : Option (FieldId × FieldValue) → Descriptor → DescriptorRecord → Type 0
Holds none d r = r ≡ r
Holds (some (id, v)) d r = field_value d r id ≡ some v

-- The record of a setting that is not refused has a property.
abbrev IfChanged : (DescriptorRecord → Type 0) → Changed → Type 0
IfChanged P (refused state message r) = no_code ≡ no_code
IfChanged P (changed unbinds r) = P r

if_IfChanged :
    (P : DescriptorRecord → Type 0) (test : Bool) (old r : DescriptorRecord) (unbinds : Bool)
    (state : SqlState) (message : Text)
    → P r
    → IfChanged P (if test then changed unbinds r else refused state message old)
if_IfChanged P true old r unbinds state message h = h
if_IfChanged P false old r unbinds state message h = refl

concise_type-set :
    (value : TypeCode) (r : DescriptorRecord) → (set_concise_type value r).concise_type ≡ value
unfolding set_concise_type
concise_type-set value r = ground arith

type-set : (value : TypeCode) (r : DescriptorRecord) → (set_desc_type value r).type ≡ value
unfolding set_desc_type
type-set value r = ground arith

data_ptr-Holds :
    (p : ℕ) (len : ℤ) (d : Descriptor) (r : DescriptorRecord) (null : Bool)
    → IfChanged (Holds (if null then none else some (field_data_ptr, pointer p)) d) (
        if null
        then changed true record r { length_of_data = 0; octet_length = pos 0 }
        else changed false
            record r { data_ptr = p; length_of_data = to_unsigned 64 len; octet_length = len })
unfolding field_value
data_ptr-Holds p len d r true = refl
data_ptr-Holds p len d r false = refl

length-Holds :
    (s : Setting) (n : ℕ) (d : Descriptor) (r : DescriptorRecord)
    → Holds (given s) d record r { length_of_data = n; octet_length = to_signed 64 (pos n) }
    → IfChanged (Holds (given s) d) (set_length n r)
length-Holds s n d r h =
    if_IfChanged (Holds (given s) d) (is_string_type r.concise_type) r
      (record r { length_of_data = n; octet_length = to_signed 64 (pos n) }) false
      shy000_general_error
      (bytes "SQL_DESC_LENGTH could not be set for fixed length type "
        ++ sql_type_to_string r.concise_type)
      h

apply_setting-Holds :
    (s : Setting) (len : ℤ) (d : Descriptor) (r : DescriptorRecord)
    → IfChanged (Holds (given s) d) (apply_setting s len r)
unfolding apply_setting field_value
apply_setting-Holds desc_header_field len d r = refl
apply_setting-Holds (desc_concise_type buffer) len d r =
    if_IfChanged (Holds (given (desc_concise_type buffer)) d)
      (is_valid_concise_type (type_at buffer)) r (set_concise_type (type_at buffer) r) false
      shy000_general_error (bytes "Invalid concise type " ++ sql_type_to_string (type_at buffer))
      (ap (λ t. some (type_code t)) (concise_type-set (type_at buffer) r))
apply_setting-Holds (desc_data_ptr p) len d r = data_ptr-Holds p len d r (p == 0)
apply_setting-Holds (desc_datetime_interval_code buffer) len d r =
    if_IfChanged (Holds (given (desc_datetime_interval_code buffer)) d)
      (is_valid_interval_code r.type (interval_code_at buffer)) r
      (record r { datetime_interval_code = (interval_code_at buffer) }) false shy000_general_error
      (bytes "Invalid interval code "
        ++ interval_code_to_string (interval_code_at buffer)
        ++ bytes " for type "
        ++ sql_type_to_string r.type)
      refl
apply_setting-Holds (desc_datetime_interval_precision buffer) len d r =
    if_IfChanged (Holds (given (desc_datetime_interval_precision buffer)) d)
      (is_interval_type r.type) r (record r { datetime_interval_precision = (integer_at buffer) })
      false shy000_general_error
      (bytes "Interval precision could only be set when SQL_DESC_TYPE is set to SQL_INTERVAL") refl
apply_setting-Holds (desc_indicator_ptr p) len d r = refl
apply_setting-Holds (desc_octet_length_ptr p) len d r = refl
apply_setting-Holds (desc_octet_length n) len d r = length-Holds (desc_octet_length n) n d r refl
apply_setting-Holds (desc_length n) len d r = length-Holds (desc_length n) n d r refl
apply_setting-Holds (desc_type_field buffer) len d r =
    if_IfChanged (Holds (given (desc_type_field buffer)) d) (is_valid_type (type_at buffer)) r
      (set_desc_type (type_at buffer) r) false shy000_general_error
      (bytes "Invalid type " ++ sql_type_to_string (type_at buffer))
      (ap (λ t. some (type_code t)) (type-set (type_at buffer) r))
apply_setting-Holds (other_field id) len d r = refl

-- The application's descriptors have the field that a setting is for.
abbrev AllowedIn : Option (FieldId × FieldValue) → DescType → Type 0
AllowedIn none t = t ≡ t
AllowedIn (some (id, v)) t = is_allowed t (allowed_types id) ≡ true

given-AllowedIn :
    (s : Setting) (t : DescType) → type_among t (ard ∷ apd ∷ []) ≡ true → AllowedIn (given s) t
given-AllowedIn desc_header_field t h = refl
given-AllowedIn (desc_concise_type buffer) t h = refl
given-AllowedIn (desc_data_ptr p) t h = choice (p == 0)
  where
    choice : (b : Bool) → AllowedIn (if b then none else some (field_data_ptr, pointer p)) t
    choice true = refl
    choice false = h
given-AllowedIn (desc_datetime_interval_code buffer) t h = refl
given-AllowedIn (desc_datetime_interval_precision buffer) t h = refl
given-AllowedIn (desc_indicator_ptr p) t h = h
given-AllowedIn (desc_octet_length_ptr p) t h = h
given-AllowedIn (desc_octet_length buffer) t h = refl
given-AllowedIn (desc_length buffer) t h = refl
given-AllowedIn (desc_type_field buffer) t h = refl
given-AllowedIn (other_field id) t h = refl

read_of_record :
    (d : Descriptor) (k : ℤ) (id : FieldId) (v : FieldValue) (r : DescriptorRecord)
    → record_of k d.records ≡ r
    → is_allowed d.desc_type (allowed_types id) ≡ true
    → field_value d r id ≡ some v
    → (internal_get_field d k id).value ≡ some v
unfolding internal_get_field
read_of_record d k id v r e allowed h =
    let f : field_value d (record_of k d.records) id ≡ some v =
      ap (λ q. field_value d q id) e ∙ h in
    rw (allowed, f) refl

eqb_ℤ_refl : (k : ℤ) → eqb_ℤ k k ≡ true
eqb_ℤ_refl k = ground arith

stored_here :
    (k : ℤ) (r : DescriptorRecord) (rs : List (ℤ × DescriptorRecord))
    → record_of k (store_at k r rs) ≡ r
stored_here k r rs = value_at-store_at new_record k k r rs ∙ rw (eqb_ℤ_refl k) refl

-- The call that is left when the diagnostics are set aside.
read_after :
    (c : Changed) (d : Descriptor) (k : ℤ) (diag : DiagnosticRecordStorage) (id : FieldId)
    (v : FieldValue)
    → is_allowed d.desc_type (allowed_types id) ≡ true
    → ((e : Descriptor) → IfChanged (λ r. field_value e r id ≡ some v) c)
    → (finish_setting d k c).result ≡ SqlResult.success
    → (internal_get_field (record (finish_setting d k c).after { diag = diag }) k id).value ≡ some v
read_after (refused state message r) d k diag id v allowed h ok = absurd (cc)
read_after (changed unbinds r) d k diag id v allowed h ok =
    let e = record d { records = store_at k r d.records; diag = diag } in
    read_of_record e k id v r (stored_here k r d.records) allowed (h e)

-- After a call that succeeds the field of the record reads as the value, whatever the diagnostics.
abbrev Reads : ℤ → FieldId → FieldValue → Call → Type 0
Reads k id v c =
    c.result ≡ SqlResult.success
    → (diag : DiagnosticRecordStorage)
    → (internal_get_field (record c.after { diag = diag }) k id).value ≡ some v

-- A call that has set a field of a record of an application's descriptor with success leaves the
-- value to be read back by GetField, for each field that can be set and each pointer but a null data
-- pointer: the value is the pointer itself for the fields that are pointers or lengths, and the
-- number that the cast to SQLSMALLINT or to SQLINTEGER makes of it for the other ones.
pub set_field-get_field :
    (d : Descriptor) (k len : ℤ) (s : Setting) (id : FieldId) (v : FieldValue)
    → type_among d.desc_type (ard ∷ apd ∷ []) ≡ true
    → given s ≡ some (id, v)
    → (set_field d k len s).result ≡ SqlResult.success
    → (internal_get_field (set_field d k len s).after k id).value ≡ some v
unfolding set_field internal_set_field
set_field-get_field d k len s id v app g ok =
    let clear = record d { diag = reset d.diag } in
    let old = record_of k d.records in
    let c = internal_set_field clear k len s in
    if_either (Reads k id v) (is_bad_length len) (refuse_length clear len)
      (finish_setting clear k (apply_setting s len old)) (λ e diag. absurd (cc))
      (λ e diag.
        read_after (apply_setting s len old) clear k diag id v
          (subst (λ o. AllowedIn o d.desc_type) g (given-AllowedIn s d.desc_type app))
          (λ e'.
            subst (λ o. IfChanged (Holds o e') (apply_setting s len old)) g
              (apply_setting-Holds s len e' old))
          e)
      ok (set_header_record c.result c.after.diag)
