-- ===== src/Descriptor/Operations.antt =====
-- src/odbc/src/descriptor.cpp: the operations that change a descriptor. A
-- `Setting` is a field with the pointer that the call gives for it.
use amazon_timestream_odbc_d.Base.{
  ◌==◌, if◌then◌else◌, ltb_ℤ, eqb_ℤ, to_signed, to_unsigned, ℤ, pos, negsuc, Text, bytes, ℕ, Bool,
  true, false, not, ◌&&◌, ◌||◌, Option, none, some, ◌++◌,
}
use amazon_timestream_odbc_d.SqlTypes.{
  SqlResult, SqlState, shy000_general_error, shy016_modify_ird, shy091_invalid_descr_field_id,
}
use amazon_timestream_odbc_d.Diagnostic.Storage.{set_header_record, add_status_record, reset}
use amazon_timestream_odbc_d.AppBuffer.Printing.{print_int}
use amazon_timestream_odbc_d.Descriptor.Types.{
  is_valid_concise_type, is_valid_type, is_valid_interval_code, sql_type_to_string,
  interval_code_to_string,
}
use amazon_timestream_odbc_d.Descriptor.Codes.{type_at, interval_code_at, integer_at}
use amazon_timestream_odbc_d.Descriptor.{
  store_at, record_of, init_app_head, init_imp_head, zero_header, TypeCode, IntervalCode, DescType,
  DescriptorRecord, Descriptor, sql_char, sql_varchar, sql_longvarchar, sql_wchar, sql_wvarchar,
  sql_wlongvarchar, sql_decimal, sql_numeric, sql_float, sql_type_date, sql_type_time,
  sql_type_timestamp, sql_interval_year_to_month, sql_interval_day_to_second, sql_datetime,
  sql_interval, no_code, sql_code_date, sql_code_time, sql_code_timestamp, sql_code_day_to_second,
  sql_code_year_to_month, ard, apd, ird,
}

-- The type and the code of a date or of an interval that a concise type stands for.
unfoldable pub set_concise_type : TypeCode → DescriptorRecord → DescriptorRecord
set_concise_type sql_type_date r = record r {
  concise_type = sql_type_date;
  type = sql_datetime;
  datetime_interval_code = sql_code_date;
}
set_concise_type sql_type_time r = record r {
  concise_type = sql_type_time;
  type = sql_datetime;
  datetime_interval_code = sql_code_time;
}
set_concise_type sql_type_timestamp r = record r {
  concise_type = sql_type_timestamp;
  type = sql_datetime;
  datetime_interval_code = sql_code_timestamp;
}
set_concise_type sql_interval_year_to_month r = record r {
  concise_type = sql_interval_year_to_month;
  type = sql_interval;
  datetime_interval_code = sql_code_year_to_month;
}
set_concise_type sql_interval_day_to_second r = record r {
  concise_type = sql_interval_day_to_second;
  type = sql_interval;
  datetime_interval_code = sql_code_day_to_second;
}
set_concise_type value r = record r {
  concise_type = value;
  type = value;
  datetime_interval_code = no_code;
}

abbrev datetime_precision : IntervalCode → ℤ → ℤ
datetime_precision sql_code_date old = pos 0
datetime_precision sql_code_time old = pos 0
datetime_precision sql_code_timestamp old = pos 6
datetime_precision _ old = old

abbrev interval_precision : IntervalCode → ℤ → ℤ
interval_precision sql_code_year_to_month old = pos 2
interval_precision sql_code_day_to_second old = pos 6
interval_precision _ old = old

-- A type that is also the concise type.
abbrev pub set_plain_type : TypeCode → DescriptorRecord → DescriptorRecord
set_plain_type value r = record r {
  type = value;
  concise_type = value;
  datetime_interval_code = no_code;
}

unfoldable pub set_desc_type : TypeCode → DescriptorRecord → DescriptorRecord
set_desc_type sql_datetime r = record r {
  type = sql_datetime;
  precision = datetime_precision r.datetime_interval_code r.precision;
}
set_desc_type sql_interval r = record r {
  type = sql_interval;
  precision = interval_precision r.datetime_interval_code r.precision;
}
set_desc_type sql_char r = record (set_plain_type sql_char r) {
  length_of_data = 1;
  precision = pos 0;
}
set_desc_type sql_varchar r = record (set_plain_type sql_varchar r) {
  length_of_data = 1;
  precision = pos 0;
}
set_desc_type sql_decimal r = record (set_plain_type sql_decimal r) {
  scale = pos 0;
  precision = pos 15;
}
set_desc_type sql_numeric r = record (set_plain_type sql_numeric r) {
  scale = pos 0;
  precision = pos 15;
}
set_desc_type sql_float r = record (set_plain_type sql_float r) { precision = pos 6 }
set_desc_type value r = set_plain_type value r

-- A field and the pointer that is given for it.
pub data Setting : Type 0 where
  desc_header_field : Setting
  desc_concise_type : ℕ → Setting
  desc_data_ptr : ℕ → Setting
  desc_datetime_interval_code : ℕ → Setting
  desc_datetime_interval_precision : ℕ → Setting
  desc_indicator_ptr : ℕ → Setting
  desc_octet_length_ptr : ℕ → Setting
  desc_octet_length : ℕ → Setting
  desc_length : ℕ → Setting
  desc_type_field : ℕ → Setting
  other_field : ℤ → Setting

abbrev pub is_string_type : TypeCode → Bool
is_string_type sql_char = true
is_string_type sql_varchar = true
is_string_type sql_longvarchar = true
is_string_type sql_wchar = true
is_string_type sql_wvarchar = true
is_string_type sql_wlongvarchar = true
is_string_type _ = false

-- What a setting makes of a record: an error with its state and message, or success, with whether
-- the column is unbound from the statement; and the record as the setting leaves it.
pub data Changed : Type 0 where
  refused : SqlState → Text → DescriptorRecord → Changed
  changed : Bool → DescriptorRecord → Changed

abbrev pub general : Text → DescriptorRecord → Changed
general message r = refused shy000_general_error message r

abbrev pub set_length : ℕ → DescriptorRecord → Changed
set_length n r =
    if is_string_type r.concise_type
    then changed false record r { length_of_data = n; octet_length = to_signed 64 (pos n) }
    else general
        (bytes "SQL_DESC_LENGTH could not be set for fixed length type "
          ++ sql_type_to_string r.concise_type)
        r

abbrev pub is_interval_type : TypeCode → Bool
is_interval_type sql_interval = true
is_interval_type _ = false

unfoldable pub apply_setting : Setting → ℤ → DescriptorRecord → Changed
apply_setting desc_header_field len r =
    refused shy091_invalid_descr_field_id (bytes "Invalid descriptor field id") r
apply_setting (desc_concise_type buffer) len r =
    if is_valid_concise_type (type_at buffer)
    then changed false (set_concise_type (type_at buffer) r)
    else general (bytes "Invalid concise type " ++ sql_type_to_string (type_at buffer)) r
apply_setting (desc_data_ptr p) len r =
    if p == 0
    then changed true record r { length_of_data = 0; octet_length = pos 0 }
    else changed false
        record r { data_ptr = p; length_of_data = to_unsigned 64 len; octet_length = len }
apply_setting (desc_datetime_interval_code buffer) len r =
    if is_valid_interval_code r.type (interval_code_at buffer)
    then changed false record r { datetime_interval_code = interval_code_at buffer }
    else general
        (bytes "Invalid interval code "
          ++ interval_code_to_string (interval_code_at buffer)
          ++ bytes " for type "
          ++ sql_type_to_string r.type)
        r
apply_setting (desc_datetime_interval_precision buffer) len r =
    if is_interval_type r.type
    then changed false record r { datetime_interval_precision = integer_at buffer }
    else general
        (bytes "Interval precision could only be set when SQL_DESC_TYPE is set to SQL_INTERVAL") r
apply_setting (desc_indicator_ptr p) len r = changed false record r { indicator_ptr = p }
apply_setting (desc_octet_length_ptr p) len r = changed false record r { octet_length_ptr = p }
apply_setting (desc_octet_length n) len r = set_length n r
apply_setting (desc_length n) len r = set_length n r
apply_setting (desc_type_field buffer) len r =
    if is_valid_type (type_at buffer)
    then changed false (set_desc_type (type_at buffer) r)
    else general (bytes "Invalid type " ++ sql_type_to_string (type_at buffer)) r
apply_setting (other_field id) len r = general (bytes "Unsupported fieldId " ++ print_int id) r

-- The result of a call, the descriptor after it, and the column that it unbinds from the statement.
pub record Call : Type 0 where
  pub result : SqlResult
  pub after : Descriptor
  pub unbound : Option ℤ

abbrev pub finish_setting : Descriptor → ℤ → Changed → Call
finish_setting d k (refused state message r) = record {
  result = SqlResult.error;
  after = record d {
    records = store_at k r d.records;
    diag = add_status_record state message d.diag;
  };
  unbound = none;
}
finish_setting d k (changed unbinds r) = record {
  result = SqlResult.success;
  after = record d { records = store_at k r d.records };
  unbound = if unbinds then some k else none;
}

-- `SQL_NTS` is -3 and `SQL_IS_POINTER` is -4.
abbrev pub is_bad_length : ℤ → Bool
is_bad_length len = ltb_ℤ len (pos 0) && not (eqb_ℤ len (negsuc 2) || eqb_ℤ len (negsuc 3))

abbrev pub refuse_length : Descriptor → ℤ → Call
refuse_length d len = record {
  result = SqlResult.error;
  after = record d {
    diag =
        add_status_record shy000_general_error (bytes "Invalid buffer length " ++ print_int len)
          d.diag;
  };
  unbound = none;
}

unfoldable pub internal_set_field : Descriptor → ℤ → ℤ → Setting → Call
internal_set_field d k len setting =
    if is_bad_length len
    then refuse_length d len
    else finish_setting d k (apply_setting setting len (record_of k d.records))

-- The call of the interface: the diagnostics of the call before it are dropped, and its own result is kept.
unfoldable pub set_field : Descriptor → ℤ → ℤ → Setting → Call
set_field d k len setting =
    let c = internal_set_field (record d { diag = reset d.diag }) k len setting in
    record c { after = record c.after { diag = set_header_record c.result c.after.diag } }

abbrev is_app : DescType → Bool
is_app ard = true
is_app apd = true
is_app _ = false

abbrev is_ird : DescType → Bool
is_ird ird = true
is_ird _ = false

-- `InternalCopyDesc`: the result, the source and the destination after it.
unfoldable pub internal_copy_desc : Descriptor → Descriptor → SqlResult × Descriptor × Descriptor
internal_copy_desc source dst =
    if is_ird dst.desc_type
    then (
      SqlResult.error,
      record source {
        diag =
            add_status_record shy016_modify_ird
              (bytes "Cannot modify an implementation row descriptor") source.diag;
      },
      dst,
    )
    else (
      SqlResult.success,
      source,
      record dst {
        header =
            if is_app source.desc_type
            then init_app_head true zero_header
            else init_imp_head zero_header;
        desc_type = source.desc_type;
        conn = source.conn;
        stmt = source.stmt;
        records = source.records;
      },
    )
