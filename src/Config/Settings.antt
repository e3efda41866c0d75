-- ===== src/Config/Settings.antt =====
-- src/odbc/src/config/configuration.cpp and its settable values: what the connection string sets.
-- Also the exchange of AuthType (src/odbc/src/authentication/auth_type.cpp) and LogLevel
-- (src/odbc/src/log_level.cpp) with texts.
use amazon_timestream_odbc_d.Base.{
  if◌then◌else◌, ℤ, pos, negsuc, Text, bytes, text_eq, Bool, true, false, [],
}
use amazon_timestream_odbc_d.Config.Texts.{to_lower, trim}

-- `SettableValue< T >`.
pub record SettableValue (A : Type 0) : Type 0 where
  pub value : A
  pub is_set : Bool

-- The constructor with a default value.
abbrev pub unset : {A : Type 0} → A → SettableValue A
unset a = record { value = a; is_set = false }

-- `SetValue`.
abbrev pub set_to : {A : Type 0} → A → SettableValue A
set_to a = record { value = a; is_set = true }

-- `AuthType::Type`.
pub data AuthType : Type 0 where
  aws_profile iam aad okta : AuthType

-- `LogLevel::Type`.
pub data LogLevel : Type 0 where
  off error_level warning_level info_level debug_level unknown : LogLevel

-- `AuthType::FromString`.
unfoldable pub auth_type_from_string : Text → AuthType
auth_type_from_string s =
    let lowered = trim (to_lower s) in
    if text_eq lowered (bytes "aws_profile")
    then aws_profile
    else if text_eq lowered (bytes "iam")
    then iam
    else if text_eq lowered (bytes "aad")
    then aad
    else if text_eq lowered (bytes "okta")
    then okta
    else aws_profile

-- `LogLevel::FromString`.
unfoldable pub log_level_from_string : Text → LogLevel
log_level_from_string s =
    let level = trim s in
    if text_eq level (bytes "4")
    then debug_level
    else if text_eq level (bytes "3")
    then info_level
    else if text_eq level (bytes "2")
    then warning_level
    else if text_eq level (bytes "1")
    then error_level
    else if text_eq level (bytes "0")
    then off
    else unknown

-- `AuthType::ToString`.
unfoldable pub auth_type_to_string : AuthType → Text
auth_type_to_string aws_profile = bytes "aws_profile"
auth_type_to_string iam = bytes "iam"
auth_type_to_string aad = bytes "aad"
auth_type_to_string okta = bytes "okta"

-- `LogLevel::ToString`.
unfoldable pub log_level_to_string : LogLevel → Text
log_level_to_string debug_level = bytes "4"
log_level_to_string info_level = bytes "3"
log_level_to_string warning_level = bytes "2"
log_level_to_string error_level = bytes "1"
log_level_to_string off = bytes "0"
log_level_to_string unknown = bytes "unknown"

pub record Configuration : Type 0 where
  pub dsn : SettableValue Text
  pub driver : SettableValue Text
  pub uid : SettableValue Text
  pub pwd : SettableValue Text
  pub access_key_id : SettableValue Text
  pub secret_key : SettableValue Text
  pub session_token : SettableValue Text
  pub profile_name : SettableValue Text
  pub req_timeout : SettableValue ℤ
  pub connection_timeout : SettableValue ℤ
  pub max_retry_count_client : SettableValue ℤ
  pub max_connections : SettableValue ℤ
  pub endpoint : SettableValue Text
  pub region : SettableValue Text
  pub auth_type : SettableValue AuthType
  pub idp_host : SettableValue Text
  pub idp_user_name : SettableValue Text
  pub idp_password : SettableValue Text
  pub idp_arn : SettableValue Text
  pub okta_app_id : SettableValue Text
  pub role_arn : SettableValue Text
  pub aad_app_id : SettableValue Text
  pub aad_client_secret : SettableValue Text
  pub aad_tenant : SettableValue Text
  pub log_level : SettableValue LogLevel
  pub log_path : SettableValue Text
  pub max_row_per_page : SettableValue ℤ

abbrev pub default_configuration : Configuration
default_configuration = record {
  dsn = unset (bytes "Timestream DSN");
  driver = unset (bytes "Amazon Timestream ODBC Driver");
  uid = unset ([]);
  pwd = unset ([]);
  access_key_id = unset ([]);
  secret_key = unset ([]);
  session_token = unset ([]);
  profile_name = unset ([]);
  req_timeout = unset (pos 3000);
  connection_timeout = unset (pos 1000);
  max_retry_count_client = unset (pos 0);
  max_connections = unset (pos 25);
  endpoint = unset ([]);
  region = unset (bytes "us-east-1");
  auth_type = unset (aws_profile);
  idp_host = unset ([]);
  idp_user_name = unset ([]);
  idp_password = unset ([]);
  idp_arn = unset ([]);
  okta_app_id = unset ([]);
  role_arn = unset ([]);
  aad_app_id = unset ([]);
  aad_client_secret = unset ([]);
  aad_tenant = unset ([]);
  log_level = unset (warning_level);
  log_path = unset ([]);
  max_row_per_page = unset (negsuc 0);
}
