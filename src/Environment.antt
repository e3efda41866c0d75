-- ===== src/Environment.antt =====
-- src/odbc/src/environment.cpp: an environment, its connections and its attributes. A connection is its address,
-- which `new` gives, and 0 where it gives none; `std::set` is a list without repetitions. The pointer that
-- carries the value of an attribute is read as the integer that it is.
pub mod States
pub mod Examples
use amazon_timestream_odbc_d.Base.{
  ◌==◌, if◌then◌else◌, eqb_ℤ, to_signed, ℤ, pos, Text, bytes, ℕ, Bool, false, ◌||◌, Option, none,
  some, List, [], ◌∷◌, ◌++◌,
}
use amazon_timestream_odbc_d.SqlTypes.{
  environment_attribute_to_internal, SqlResult, SqlState, EnvironmentAttribute, AttributeId,
  success_with_info, s01s02_option_value_changed, shy001_memory_allocation,
  shyc00_optional_feature_not_implemented, odbc_version,
}
use amazon_timestream_odbc_d.Diagnostic.Storage.{
  new_storage, set_header_record, add_status_record, reset, DiagnosticRecordStorage,
}
use amazon_timestream_odbc_d.AppBuffer.{ApplicationDataBuffer}
use amazon_timestream_odbc_d.AppBuffer.Platform.{Platform}
use amazon_timestream_odbc_d.AppBuffer.Printing.{print_int}
use amazon_timestream_odbc_d.AppBuffer.Store.{Outcome}
use amazon_timestream_odbc_d.AppBuffer.Puts.{put_int32}

pub record Environment : Type 0 where
  pub connections : List ℕ
  pub odbc_version : ℤ
  pub odbc_nts : ℤ
  pub diag : DiagnosticRecordStorage

-- `SQL_OV_ODBC3` is 3 and `SQL_TRUE` is 1.
unfoldable pub new_environment : Environment
new_environment = record {
  connections = [];
  odbc_version = pos 3;
  odbc_nts = pos 1;
  diag = new_storage;
}

-- `std::set::insert` and `erase`.
abbrev pub contains : ℕ → List ℕ → Bool
contains c [] = false
contains c (x ∷ xs) = (c == x) || contains c xs

abbrev pub insert : ℕ → List ℕ → List ℕ
insert c xs = if contains c xs then xs else c ∷ xs

abbrev pub erase : ℕ → List ℕ → List ℕ
erase c [] = []
erase c (x ∷ xs) = let rest = erase c xs in if c == x then rest else x ∷ rest

-- The call of the interface: the diagnostics before it are dropped, and its own result is kept.
abbrev pub api_call : Environment → (Environment → SqlResult × Environment) → Environment
api_call e call =
    let r = call (record e { diag = reset e.diag }) in
    record r.1 { diag = set_header_record r.0 r.1.diag }

abbrev report : SqlResult → SqlState → Text → Environment → SqlResult × Environment
report result state message e = (result, record e { diag = add_status_record state message e.diag })

unfoldable pub internal_create_connection : ℕ → Environment → SqlResult × Environment
internal_create_connection connection e =
    if connection == 0
    then report SqlResult.error shy001_memory_allocation (bytes "Not enough memory.") e
    else (SqlResult.success, record e { connections = insert connection e.connections })

unfoldable pub create_connection : ℕ → Environment → Environment
create_connection connection e = api_call e (internal_create_connection connection)

unfoldable pub deregister_connection : ℕ → Environment → Environment
deregister_connection connection e = record e { connections = erase connection e.connections }

-- `SQL_OV_ODBC2` is 2.
abbrev pub set_version : ℤ → Environment → SqlResult × Environment
set_version version e =
    if eqb_ℤ version (pos 2) || eqb_ℤ version (pos 3)
    then (SqlResult.success, record e { odbc_version = version })
    else report success_with_info s01s02_option_value_changed
        (bytes "The value of ODBC version("
          ++ print_int version
          ++ bytes ") is not supported and the default value("
          ++ print_int e.odbc_version
          ++ bytes ") will be used.")
        e

abbrev pub set_nts : ℤ → Environment → SqlResult × Environment
set_nts nts e =
    if eqb_ℤ nts e.odbc_nts
    then (SqlResult.success, e)
    else report success_with_info s01s02_option_value_changed
        (bytes "Only null-termination of strings is supported.") e

abbrev pub set_known : EnvironmentAttribute → ℤ → Environment → SqlResult × Environment
set_known EnvironmentAttribute.odbc_version value e = set_version value e
set_known EnvironmentAttribute.output_nts value e = set_nts value e
set_known EnvironmentAttribute.unknown value e =
    report SqlResult.error shyc00_optional_feature_not_implemented
      (bytes "Attribute is not supported.") e

unfoldable pub internal_set_attribute : AttributeId → ℤ → Environment → SqlResult × Environment
internal_set_attribute attr value e =
    set_known (environment_attribute_to_internal attr) (to_signed 32 value) e

unfoldable pub set_attribute : AttributeId → ℤ → Environment → Environment
set_attribute attr value e = api_call e (internal_set_attribute attr value)

-- What GetAttribute puts in the buffer, where it knows the attribute.
unfoldable pub internal_get_attribute :
    Platform
    → AttributeId
    → ApplicationDataBuffer
    → Environment
    → Option (Option Outcome) × SqlResult × Environment
internal_get_attribute p attr b e = elim (environment_attribute_to_internal attr) [
  | EnvironmentAttribute.odbc_version ↦ (some (put_int32 p b e.odbc_version), SqlResult.success, e)
  | EnvironmentAttribute.output_nts ↦ (some (put_int32 p b e.odbc_nts), SqlResult.success, e)
  | EnvironmentAttribute.unknown ↦
      let r =
        report SqlResult.error shyc00_optional_feature_not_implemented
          (bytes "Attribute is not supported.") e in
      (none, r.0, r.1)
]

unfoldable pub get_attribute :
    Platform
    → AttributeId
    → ApplicationDataBuffer
    → Environment
    → Option (Option Outcome) × Environment
get_attribute p attr b e =
    let r = internal_get_attribute p attr b (record e { diag = reset e.diag }) in
    (r.0, record r.2 { diag = set_header_record r.1 r.2.diag })
