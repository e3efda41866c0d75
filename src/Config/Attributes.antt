-- ===== src/Config/Attributes.antt =====
-- `ConnectionStringParser::HandleAttributePair` (src/odbc/src/config/connection_string_parser.cpp): one
-- attribute of the connection string is put into the configuration, or reported.
-- `sizeof(std::string)`, which bounds the length of a number, and IsValidDirectory are parameters.
use amazon_timestream_odbc_d.Base.{
  ltb, leb, if◌then◌else◌, length, is_empty, ℤ, pos, negsuc, Text, bytes, text_eq, ℕ, ◌-◌, min,
  Bool, false, not, ◌||◌, Option, none, some, List, [], ◌∷◌, ◌++◌,
}
use amazon_timestream_odbc_d.SqlTypes.{s01s02_option_value_changed}
use amazon_timestream_odbc_d.Diagnostic.Storage.{add_status_record, DiagnosticRecordStorage}
use amazon_timestream_odbc_d.Config.Texts.{to_lower, all_digits, decimal, trim}
use amazon_timestream_odbc_d.Config.Settings.{
  set_to, auth_type_from_string, log_level_from_string, AuthType, LogLevel, Configuration,
  aws_profile, unknown,
}

-- The attributes that the parser knows.
pub data Attribute : Type 0 where
  dsn_key profile_name_key req_timeout_key connection_timeout_key max_retry_count_client_key
        max_connections_key endpoint_key region_key auth_type_key idp_host_key idp_user_name_key
        idp_password_key idp_arn_key okta_app_id_key role_arn_key aad_app_id_key
        aad_client_secret_key aad_tenant_key log_level_key log_path_key driver_key uid_key pwd_key
        access_key_id_key secret_key_key session_token_key max_row_per_page_key unknown_key :
      Attribute

-- The names of `ConnectionStringParser::Key`, in the order in which they are compared.
abbrev pub keys : List (Text × Attribute)
keys =
    (bytes "dsn", dsn_key)
    ∷ (bytes "profilename", profile_name_key)
    ∷ (bytes "requesttimeout", req_timeout_key)
    ∷ (bytes "connectiontimeout", connection_timeout_key)
    ∷ (bytes "maxretrycountclient", max_retry_count_client_key)
    ∷ (bytes "maxconnections", max_connections_key)
    ∷ (bytes "endpointoverride", endpoint_key)
    ∷ (bytes "region", region_key)
    ∷ (bytes "auth", auth_type_key)
    ∷ (bytes "idphost", idp_host_key)
    ∷ (bytes "idpusername", idp_user_name_key)
    ∷ (bytes "idppassword", idp_password_key)
    ∷ (bytes "idparn", idp_arn_key)
    ∷ (bytes "oktaapplicationid", okta_app_id_key)
    ∷ (bytes "rolearn", role_arn_key)
    ∷ (bytes "aadapplicationid", aad_app_id_key)
    ∷ (bytes "aadclientsecret", aad_client_secret_key)
    ∷ (bytes "aadtenant", aad_tenant_key)
    ∷ (bytes "loglevel", log_level_key)
    ∷ (bytes "logoutput", log_path_key)
    ∷ (bytes "driver", driver_key)
    ∷ (bytes "uid", uid_key)
    ∷ (bytes "pwd", pwd_key)
    ∷ (bytes "accesskeyid", access_key_id_key)
    ∷ (bytes "secretkey", secret_key_key)
    ∷ (bytes "sessiontoken", session_token_key)
    ∷ (bytes "maxrowperpage", max_row_per_page_key)
    ∷ []

abbrev pub find_key : Text → List (Text × Attribute) → Attribute
find_key s [] = unknown_key
find_key s ((name, a) ∷ rest) = if text_eq s name then a else find_key s rest

unfoldable pub attribute_of : Text → Attribute
attribute_of key = find_key (to_lower key) keys

-- The configuration, and the records where the caller passed some.
pub record Parsed : Type 0 where
  pub cfg : Configuration
  pub diag : Option DiagnosticRecordStorage

-- `if (diag) diag->AddStatusRecord(S01S02_OPTION_VALUE_CHANGED, ...)`.
unfoldable pub warn : Text → Parsed → Parsed
warn message p = elim p.diag [
  | none ↦ p
  | some s ↦ record p { diag = some (add_status_record s01s02_option_value_changed message s) }
]

-- `MakeErrorMessage`.
unfoldable pub make_error_message : Text → Text → Text → Text
make_error_message message key value =
    message ++ bytes " [key='" ++ key ++ bytes "', value='" ++ value ++ bytes "']"

-- What the five branches for a number make of its text.
pub data NumberCheck : Type 0 where
  is_missing has_unexpected_characters is_too_large is_out_of_range : NumberCheck
  number : ℕ → NumberCheck

abbrev pub int64_max : ℕ
int64_max = 9223372036854775807

abbrev pub uint32_max : ℕ
uint32_max = 4294967295

-- The tests of these branches: the text's length is compared with `sizeof(std::string)`, the
-- stream's number is capped to an `int64_t`, and `low` is the least number allowed.
unfoldable pub check_number : ℕ → ℕ → Text → NumberCheck
check_number string_size low value =
    let n = min (decimal value) int64_max in
    if is_empty value
    then is_missing
    else if not (all_digits value)
    then has_unexpected_characters
    else if leb string_size (length value)
    then is_too_large
    else if ltb n low || ltb uint32_max n
    then is_out_of_range
    else number n

-- The setters take an `int32_t`.
unfoldable pub to_int32 : ℕ → ℤ
to_int32 n = if ltb n 2147483648 then pos n else negsuc (4294967295 - n)

unfoldable pub number_message : Text → NumberCheck → Text
number_message name is_missing = name ++ bytes " attribute value is empty. Using default value."
number_message name has_unexpected_characters =
    name ++ bytes " attribute value contains unexpected characters. Using default value."
number_message name is_too_large =
    name ++ bytes " attribute value is too large. Using default value."
number_message name is_out_of_range =
    name ++ bytes " attribute value is out of range. Using default value."
number_message name (number n) = []

-- A branch for a number, with what it does to the configuration.
unfoldable pub put_number : NumberCheck → Text → Text → Text → (ℤ → Configuration) → Parsed → Parsed
put_number (number n) name key value setter p = record p { cfg = setter (to_int32 n) }
put_number check name key value setter p =
    warn (make_error_message (number_message name check) key value) p

-- A branch that reports the attribute if it already has a value, and sets it.
unfoldable pub rewrite_text : Text → Text → Parsed → Parsed
rewrite_text name [] p = p
rewrite_text name (c ∷ cs) p =
    warn (bytes "Re-writing " ++ name ++ bytes " (have you specified it several times?") p

-- The branch for the type of authentication, told whether its text names AWS_PROFILE.
unfoldable pub put_auth : Bool → AuthType → Parsed → Parsed
put_auth false aws_profile p =
    warn (bytes "Specified AUTH is not supported. Default value used ('AWS_PROFILE').") p
put_auth named type p = record p { cfg = record p.cfg { auth_type = set_to type } }

unfoldable pub put_auth_type : Text → Parsed → Parsed
put_auth_type value p =
    put_auth (text_eq (trim (to_lower value)) (bytes "aws_profile")) (auth_type_from_string value) p

unfoldable pub put_log_level : LogLevel → Parsed → Parsed
put_log_level unknown p =
    warn (bytes "Specified Log Level is not supported. Default value used ('2').") p
put_log_level level p = record p { cfg = record p.cfg { log_level = set_to level } }

unfoldable pub set_cfg : Configuration → Parsed → Parsed
set_cfg cfg p = record p { cfg = cfg }

module _ (string_size : ℕ) (is_valid_directory : Text → Bool) where
  unfoldable pub handle_attribute : Attribute → Text → Text → Parsed → Parsed
  handle_attribute dsn_key key value p = set_cfg (record p.cfg { dsn = set_to value }) p
  handle_attribute profile_name_key key value p =
      set_cfg (record p.cfg { profile_name = set_to value }) p
  handle_attribute req_timeout_key key value p =
      put_number (check_number string_size 1 value) (bytes "Request Timeout") key value
        (λ n. record p.cfg { req_timeout = set_to n }) p
  handle_attribute connection_timeout_key key value p =
      put_number (check_number string_size 1 value) (bytes "Connection Timeout") key value
        (λ n. record p.cfg { connection_timeout = set_to n }) p
  handle_attribute max_retry_count_client_key key value p =
      put_number (check_number string_size 0 value) (bytes "Max Retry Count Client") key value
        (λ n. record p.cfg { max_retry_count_client = set_to n }) p
  handle_attribute max_connections_key key value p =
      put_number (check_number string_size 1 value) (bytes "Max Connections") key value
        (λ n. record p.cfg { max_connections = set_to n }) p
  handle_attribute endpoint_key key value p = set_cfg (record p.cfg { endpoint = set_to value }) p
  handle_attribute region_key key value p = set_cfg (record p.cfg { region = set_to value }) p
  handle_attribute auth_type_key key value p = put_auth_type value p
  handle_attribute idp_host_key key value p = set_cfg (record p.cfg { idp_host = set_to value }) p
  handle_attribute idp_user_name_key key value p =
      set_cfg (record p.cfg { idp_user_name = set_to value })
        (rewrite_text (bytes "IdPUserName") p.cfg.idp_user_name.value p)
  handle_attribute idp_password_key key value p =
      set_cfg (record p.cfg { idp_password = set_to value })
        (rewrite_text (bytes "IdPPassword") p.cfg.idp_password.value p)
  handle_attribute idp_arn_key key value p = set_cfg (record p.cfg { idp_arn = set_to value }) p
  handle_attribute okta_app_id_key key value p =
      set_cfg (record p.cfg { okta_app_id = set_to value }) p
  handle_attribute role_arn_key key value p = set_cfg (record p.cfg { role_arn = set_to value }) p
  handle_attribute aad_app_id_key key value p =
      set_cfg (record p.cfg { aad_app_id = set_to value }) p
  handle_attribute aad_client_secret_key key value p =
      set_cfg (record p.cfg { aad_client_secret = set_to value })
        (rewrite_text (bytes "AADClientSecret") p.cfg.aad_client_secret.value p)
  handle_attribute aad_tenant_key key value p =
      set_cfg (record p.cfg { aad_tenant = set_to value }) p
  handle_attribute log_level_key key value p = put_log_level (log_level_from_string value) p
  handle_attribute log_path_key key value p =
      if is_valid_directory value then set_cfg (record p.cfg { log_path = set_to value }) p else p
  handle_attribute driver_key key value p = set_cfg (record p.cfg { driver = set_to value }) p
  handle_attribute uid_key key value p =
      set_cfg (record p.cfg { uid = set_to value }) (rewrite_text (bytes "UID") p.cfg.uid.value p)
  handle_attribute pwd_key key value p =
      set_cfg (record p.cfg { pwd = set_to value }) (rewrite_text (bytes "PWD") p.cfg.pwd.value p)
  handle_attribute access_key_id_key key value p =
      set_cfg (record p.cfg { access_key_id = set_to value })
        (rewrite_text (bytes "AccessKeyId") p.cfg.access_key_id.value p)
  handle_attribute secret_key_key key value p =
      set_cfg (record p.cfg { secret_key = set_to value })
        (rewrite_text (bytes "SecretKey") p.cfg.secret_key.value p)
  handle_attribute session_token_key key value p =
      set_cfg (record p.cfg { session_token = set_to value })
        (rewrite_text (bytes "SessionToken") p.cfg.session_token.value p)
  handle_attribute max_row_per_page_key key value p =
      put_number (check_number string_size 0 value) (bytes "Max Row Per Page") key value
        (λ n. record p.cfg { max_row_per_page = set_to n }) p
  handle_attribute unknown_key key value p =
      warn (bytes "Unknown attribute: '" ++ key ++ bytes "'. Ignoring.") p

  unfoldable pub handle_attribute_pair : Text → Text → Parsed → Parsed
  handle_attribute_pair key value p = handle_attribute (attribute_of key) key value p
