-- ===== src/Descriptor/Laws.antt =====
-- src/odbc/src/descriptor.cpp: the type of a record and its concise type agree, whatever is set.
use amazon_timestream_odbc_d.Base.{
  ◌==◌, if◌then◌else◌, eqb_ℤ, to_signed, to_unsigned, ℤ, pos, Text, bytes, ℕ, ◌≡◌, refl, sym, subst,
  Bool, true, false, List, [], ◌∷◌, ◌++◌, arith,
}
use amazon_timestream_odbc_d.SqlTypes.{SqlState, shy000_general_error}
use amazon_timestream_odbc_d.Descriptor.{
  new_record, value_at, store_at, record_of, TypeCode, IntervalCode, DescriptorRecord, Descriptor,
  sql_datetime, sql_interval, no_code,
}
use amazon_timestream_odbc_d.Descriptor.Codes.{type_at, interval_code_at, integer_at}
use amazon_timestream_odbc_d.Descriptor.Types.{
  is_valid_concise_type, is_valid_type, is_valid_interval_code, sql_type_to_string,
  interval_code_to_string,
}
use amazon_timestream_odbc_d.Descriptor.Operations.{
  set_concise_type, set_desc_type, is_string_type, set_length, is_interval_type, apply_setting,
  finish_setting, Setting, Changed, desc_header_field, desc_concise_type, desc_data_ptr,
  desc_datetime_interval_code, desc_datetime_interval_precision, desc_indicator_ptr,
  desc_octet_length_ptr, desc_octet_length, desc_length, desc_type_field, other_field, refused,
  changed,
}

-- The types that a code makes precise: dates and intervals.
abbrev pub is_verbose : TypeCode → Bool
is_verbose sql_datetime = true
is_verbose sql_interval = true
is_verbose _ = false

-- A type that is not verbose is the concise type, and has no code.
abbrev pub IsConsistent : DescriptorRecord → Type 0
IsConsistent r =
    is_verbose r.type ≡ false → (r.concise_type ≡ r.type) × (r.datetime_interval_code ≡ no_code)

-- All records, those that the map would make among them.
abbrev pub AllConsistent : Descriptor → Type 0
AllConsistent d = (k : ℤ) → IsConsistent (record_of k d.records)

pub eqb_ℤ-eq : (a b : ℤ) → eqb_ℤ a b ≡ true → a ≡ b
eqb_ℤ-eq a b h = ground arith

-- A value stored is read back, and the others stay.
pub value_at-store_at :
    {A : Type 0} (default : A) (j k : ℤ) (a : A) (rs : List (ℤ × A))
    → value_at default j (store_at k a rs) ≡ (if eqb_ℤ j k then a else value_at default j rs)
value_at-store_at default j k a [] = refl
value_at-store_at default j k a ((i, q) ∷ rs) = ground (arith, value_at-store_at default j k a rs)

set_concise_type-IsConsistent :
    (value : TypeCode) (r : DescriptorRecord) → IsConsistent (set_concise_type value r)
unfolding set_concise_type
set_concise_type-IsConsistent value r h = (ground arith, ground arith)

set_desc_type-IsConsistent :
    (value : TypeCode) (r : DescriptorRecord) → IsConsistent (set_desc_type value r)
unfolding set_desc_type
set_desc_type-IsConsistent value r h = (ground arith, ground arith)

-- The record that a setting leaves.
abbrev pub record_after : Changed → DescriptorRecord
record_after (refused state message r) = r
record_after (changed unbinds r) = r

if_IsConsistent :
    (test : Bool) (old r : DescriptorRecord) (unbinds : Bool) (state : SqlState) (message : Text)
    → IsConsistent old
    → (test ≡ true → IsConsistent r)
    → IsConsistent (record_after (if test then changed unbinds r else refused state message old))
if_IsConsistent true old r unbinds state message h k = k refl
if_IsConsistent false old r unbinds state message h k = h

valid_code_verbose :
    (type : TypeCode) (code : IntervalCode)
    → is_valid_interval_code type code ≡ true
    → is_verbose type ≡ true
unfolding is_valid_interval_code
valid_code_verbose sql_datetime code h = refl
valid_code_verbose sql_interval code h = refl
valid_code_verbose type code h = ground arith

data_ptr-IsConsistent :
    (p : ℕ) (len : ℤ) (r : DescriptorRecord)
    → IsConsistent r
    → (null : Bool)
    → IsConsistent (
        record_after (
          if null
          then changed true record r { length_of_data = 0; octet_length = pos 0 }
          else changed false
              record r { data_ptr = p; length_of_data = to_unsigned 64 len; octet_length = len }))
data_ptr-IsConsistent p len r h true = h
data_ptr-IsConsistent p len r h false = h

set_length-IsConsistent :
    (n : ℕ) (r : DescriptorRecord) → IsConsistent r → IsConsistent (record_after (set_length n r))
set_length-IsConsistent n r h =
    if_IsConsistent (is_string_type r.concise_type) r
      (record r { length_of_data = n; octet_length = to_signed 64 (pos n) }) false
      shy000_general_error
      (bytes "SQL_DESC_LENGTH could not be set for fixed length type "
        ++ sql_type_to_string r.concise_type)
      h (λ e. h)

pub apply_setting-IsConsistent :
    (s : Setting) (len : ℤ) (r : DescriptorRecord)
    → IsConsistent r
    → IsConsistent (record_after (apply_setting s len r))
unfolding apply_setting
apply_setting-IsConsistent desc_header_field len r h = h
apply_setting-IsConsistent (desc_concise_type buffer) len r h =
    if_IsConsistent (is_valid_concise_type (type_at buffer)) r (set_concise_type (type_at buffer) r)
      false shy000_general_error
      (bytes "Invalid concise type " ++ sql_type_to_string (type_at buffer)) h
      (λ e. set_concise_type-IsConsistent (type_at buffer) r)
apply_setting-IsConsistent (desc_data_ptr p) len r h = data_ptr-IsConsistent p len r h (p == 0)
apply_setting-IsConsistent (desc_datetime_interval_code buffer) len r h =
    if_IsConsistent (is_valid_interval_code r.type (interval_code_at buffer)) r
      (record r { datetime_interval_code = (interval_code_at buffer) }) false shy000_general_error
      (bytes "Invalid interval code "
        ++ interval_code_to_string (interval_code_at buffer)
        ++ bytes " for type "
        ++ sql_type_to_string r.type)
      h (λ e k. absurd (ground (arith, valid_code_verbose r.type (interval_code_at buffer) e)))
apply_setting-IsConsistent (desc_datetime_interval_precision buffer) len r h =
    if_IsConsistent (is_interval_type r.type) r
      (record r { datetime_interval_precision = (integer_at buffer) }) false shy000_general_error
      (bytes "Interval precision could only be set when SQL_DESC_TYPE is set to SQL_INTERVAL") h
      (λ e. h)
apply_setting-IsConsistent (desc_indicator_ptr p) len r h = h
apply_setting-IsConsistent (desc_octet_length_ptr p) len r h = h
apply_setting-IsConsistent (desc_octet_length n) len r h = set_length-IsConsistent n r h
apply_setting-IsConsistent (desc_length n) len r h = set_length-IsConsistent n r h
apply_setting-IsConsistent (desc_type_field buffer) len r h =
    if_IsConsistent (is_valid_type (type_at buffer)) r (set_desc_type (type_at buffer) r) false
      shy000_general_error (bytes "Invalid type " ++ sql_type_to_string (type_at buffer)) h
      (λ e. set_desc_type-IsConsistent (type_at buffer) r)
apply_setting-IsConsistent (other_field id) len r h = h

pub records_after_setting :
    (d : Descriptor) (k : ℤ) (c : Changed)
    → (finish_setting d k c).after.records ≡ store_at k (record_after c) d.records
records_after_setting d k (refused state message r) = refl
records_after_setting d k (changed unbinds r) = refl

pub stored-AllConsistent :
    (d : Descriptor) (k : ℤ) (r : DescriptorRecord)
    → AllConsistent d
    → IsConsistent r
    → (j : ℤ) → IsConsistent (record_of j (store_at k r d.records))
stored-AllConsistent d k r all h j =
    subst IsConsistent (sym (value_at-store_at new_record j k r d.records)) (chosen (eqb_ℤ j k))
  where
    chosen : (b : Bool) → IsConsistent (if b then r else record_of j d.records)
    chosen true = h
    chosen false = all j
