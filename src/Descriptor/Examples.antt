-- ===== src/Descriptor/Examples.antt =====
-- A descriptor at work.
use amazon_timestream_odbc_d.Base.{to_signed, ℤ, pos, negsuc, ◌≡◌, refl, true, some, List, [], ◌∷◌}
use amazon_timestream_odbc_d.Diagnostic.Storage.{new_storage}
use amazon_timestream_odbc_d.Descriptor.{
  record_of, init_app_head, zero_header, Descriptor, sql_type_time, sql_guid, other, ard,
}
use amazon_timestream_odbc_d.Descriptor.Types.{
  is_valid_concise_type, is_valid_type, is_valid_interval_code,
}
use amazon_timestream_odbc_d.Descriptor.Operations.{
  set_desc_type, apply_setting, internal_set_field, set_field, Setting, desc_concise_type,
  desc_data_ptr, desc_datetime_interval_code, desc_type_field,
}
use amazon_timestream_odbc_d.Descriptor.Laws.{AllConsistent}
use amazon_timestream_odbc_d.Descriptor.Calls.{set_fields, set_fields-AllConsistent}
use amazon_timestream_odbc_d.Descriptor.Answers.{IsAnswer, set_field-IsAnswer}
use amazon_timestream_odbc_d.Descriptor.Codes.{
  type_of_number, code_of_number, type_at, interval_code_at, integer_at,
}
use amazon_timestream_odbc_d.Descriptor.Reading.{internal_get_field, field_concise_type, type_code}
use amazon_timestream_odbc_d.Descriptor.RoundTrip.{set_field-get_field}

abbrev row_descriptor : Descriptor
row_descriptor = record {
  desc_type = ard;
  conn = 64;
  stmt = 128;
  header = init_app_head true zero_header;
  records = [];
  diag = new_storage;
}

abbrev some_calls : List (ℤ × ℤ × Setting)
some_calls =
    (pos 1, pos 0, desc_concise_type 91)
    ∷ (pos 1, pos 0, desc_type_field 12)
    ∷ (pos 2, negsuc 8, desc_data_ptr 4096)
    ∷ []

set_fields-AllConsistent_example : AllConsistent (set_fields some_calls row_descriptor)
set_fields-AllConsistent_example = set_fields-AllConsistent some_calls row_descriptor refl

set_field-IsAnswer_example :
    IsAnswer row_descriptor
      (pos 1)
      (pos 0)
      (desc_concise_type 65525)
      (set_field row_descriptor (pos 1) (pos 0) (desc_concise_type 65525))
set_field-IsAnswer_example =
    set_field-IsAnswer row_descriptor (pos 1) (pos 0) (desc_concise_type 65525)

-- A code set for a date leaves the concise type as it was.
code_without_concise_type :
    (record_of
      (pos 1)
      (set_fields
        ((pos 1, pos 0, desc_type_field 9) ∷ (pos 1, pos 0, desc_datetime_interval_code 1) ∷ [])
        row_descriptor).records).concise_type
    ≡ other (pos 0)
unfolding set_fields set_field internal_set_field apply_setting is_valid_type set_desc_type
    is_valid_interval_code type_at interval_code_at type_of_number code_of_number to_signed
code_without_concise_type = refl

set_field-get_field_example :
    (internal_get_field
      (set_field row_descriptor (pos 3) (pos 0) (desc_concise_type 92)).after
      (pos 3)
      field_concise_type).value
    ≡ some (type_code sql_type_time)
unfolding set_field internal_set_field apply_setting is_valid_concise_type type_at type_of_number
    to_signed
set_field-get_field_example =
    set_field-get_field row_descriptor (pos 3) (pos 0) (desc_concise_type 92) field_concise_type
      (type_code sql_type_time) refl refl refl

-- An address whose low 32 bits are 0 stands for the precision 0.
narrowed_precision : integer_at 4294967296 ≡ pos 0
unfolding integer_at to_signed
narrowed_precision = refl

-- The type of GUIDs is -11, which is 65525 in 16 bits.
guid_number : type_at 65525 ≡ sql_guid
unfolding type_at type_of_number to_signed
guid_number = refl
