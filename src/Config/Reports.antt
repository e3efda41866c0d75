-- ===== src/Config/Reports.antt =====
-- What handling an attribute reports.
use amazon_timestream_odbc_d.Base.{
  if◌then◌else◌, Option-cases, ℤ, Text, bytes, ℕ, ◌≡◌, refl, ◌⊎◌, inl, inr, Bool, true, false,
  Option, none, some, [], ◌∷◌, ◌++◌,
}
use amazon_timestream_odbc_d.SqlTypes.{s01s02_option_value_changed}
use amazon_timestream_odbc_d.Diagnostic.Storage.{add_status_record, DiagnosticRecordStorage}
use amazon_timestream_odbc_d.Config.Settings.{
  auth_type_from_string, log_level_from_string, AuthType, LogLevel, Configuration, aws_profile, iam,
  aad, okta, off, error_level, warning_level, info_level, debug_level, unknown,
}
use amazon_timestream_odbc_d.Config.Attributes.{
  attribute_of, warn, put_number, rewrite_text, put_auth, put_auth_type, put_log_level, set_cfg,
  handle_attribute, handle_attribute_pair, Attribute, Parsed, NumberCheck, dsn_key,
  profile_name_key, req_timeout_key, connection_timeout_key, max_retry_count_client_key,
  max_connections_key, endpoint_key, region_key, auth_type_key, idp_host_key, idp_user_name_key,
  idp_password_key, idp_arn_key, okta_app_id_key, role_arn_key, aad_app_id_key,
  aad_client_secret_key, aad_tenant_key, log_level_key, log_path_key, driver_key, uid_key, pwd_key,
  access_key_id_key, secret_key_key, session_token_key, max_row_per_page_key, unknown_key,
  is_missing, has_unexpected_characters, is_too_large, is_out_of_range, number,
}

-- At most one record is added, with the state of a changed option; without a storage for records
-- there is none afterwards either.
abbrev pub AtMostOne : Option DiagnosticRecordStorage → Option DiagnosticRecordStorage → Type 0
AtMostOne none d = d ≡ none
AtMostOne (some s) d =
    (d ≡ some s) ⊎ ((m : Text) × (d ≡ some (add_status_record s01s02_option_value_changed m s)))

same : (d : Option DiagnosticRecordStorage) → AtMostOne d d
same none = refl
same (some s) = inl refl

pub warn-cfg : (m : Text) (p : Parsed) → (warn m p).cfg ≡ p.cfg
unfolding warn
warn-cfg m p = elim (Option-cases p.diag) [ inl e ↦ rw e refl | inr (s, e) ↦ rw e refl ]

warned_from :
    (m : Text) (c : Configuration) (d : Option DiagnosticRecordStorage)
    → AtMostOne d (warn m (record { cfg = c; diag = d })).diag
unfolding warn
warned_from m c none = refl
warned_from m c (some s) = inr (m, refl)

warned : (m : Text) (p : Parsed) → AtMostOne p.diag (warn m p).diag
warned m p = warned_from m p.cfg p.diag

rewritten : (name old : Text) (p : Parsed) → AtMostOne p.diag (rewrite_text name old p).diag
unfolding rewrite_text
rewritten name [] p = same p.diag
rewritten name (c ∷ cs) p =
    warned (bytes "Re-writing " ++ name ++ bytes " (have you specified it several times?") p

numbered :
    (check : NumberCheck) (name key value : Text) (setter : ℤ → Configuration) (p : Parsed)
    → AtMostOne p.diag (put_number check name key value setter p).diag
unfolding put_number
numbered (number n) name key value setter p = same p.diag
numbered is_missing name key value setter p = warned _ p
numbered has_unexpected_characters name key value setter p = warned _ p
numbered is_too_large name key value setter p = warned _ p
numbered is_out_of_range name key value setter p = warned _ p

levelled : (level : LogLevel) (p : Parsed) → AtMostOne p.diag (put_log_level level p).diag
unfolding put_log_level
levelled unknown p = warned _ p
levelled off p = same p.diag
levelled error_level p = same p.diag
levelled warning_level p = same p.diag
levelled info_level p = same p.diag
levelled debug_level p = same p.diag

auth : (named : Bool) (type : AuthType) (p : Parsed) → AtMostOne p.diag (put_auth named type p).diag
unfolding put_auth
auth false aws_profile p = warned _ p
auth true aws_profile p = same p.diag
auth false iam p = same p.diag
auth true iam p = same p.diag
auth false aad p = same p.diag
auth true aad p = same p.diag
auth false okta p = same p.diag
auth true okta p = same p.diag

directory :
    (b : Bool) (c : Configuration) (p : Parsed)
    → AtMostOne p.diag (if b then set_cfg c p else p).diag
unfolding set_cfg
directory true c p = same p.diag
directory false c p = same p.diag

module _ (string_size : ℕ) (is_valid_directory : Text → Bool) where
  handled :
      (a : Attribute) (key value : Text) (p : Parsed)
      → AtMostOne p.diag (handle_attribute string_size is_valid_directory a key value p).diag
  unfolding handle_attribute set_cfg put_auth_type
  handled dsn_key key value p = same p.diag
  handled profile_name_key key value p = same p.diag
  handled req_timeout_key key value p = numbered _ _ key value _ p
  handled connection_timeout_key key value p = numbered _ _ key value _ p
  handled max_retry_count_client_key key value p = numbered _ _ key value _ p
  handled max_connections_key key value p = numbered _ _ key value _ p
  handled endpoint_key key value p = same p.diag
  handled region_key key value p = same p.diag
  handled auth_type_key key value p = auth _ (auth_type_from_string value) p
  handled idp_host_key key value p = same p.diag
  handled idp_user_name_key key value p =
      rewritten (bytes "IdPUserName") p.cfg.idp_user_name.value p
  handled idp_password_key key value p = rewritten (bytes "IdPPassword") p.cfg.idp_password.value p
  handled idp_arn_key key value p = same p.diag
  handled okta_app_id_key key value p = same p.diag
  handled role_arn_key key value p = same p.diag
  handled aad_app_id_key key value p = same p.diag
  handled aad_client_secret_key key value p =
      rewritten (bytes "AADClientSecret") p.cfg.aad_client_secret.value p
  handled aad_tenant_key key value p = same p.diag
  handled log_level_key key value p = levelled (log_level_from_string value) p
  handled log_path_key key value p = directory (is_valid_directory value) _ p
  handled driver_key key value p = same p.diag
  handled uid_key key value p = rewritten (bytes "UID") p.cfg.uid.value p
  handled pwd_key key value p = rewritten (bytes "PWD") p.cfg.pwd.value p
  handled access_key_id_key key value p =
      rewritten (bytes "AccessKeyId") p.cfg.access_key_id.value p
  handled secret_key_key key value p = rewritten (bytes "SecretKey") p.cfg.secret_key.value p
  handled session_token_key key value p =
      rewritten (bytes "SessionToken") p.cfg.session_token.value p
  handled max_row_per_page_key key value p = numbered _ _ key value _ p
  handled unknown_key key value p = warned _ p

  -- Handling one attribute, of any name and value, adds at most one record to those of the caller,
  -- and a record that it adds has the state 01S02.
  pub handle_attribute_pair-AtMostOne :
      (key value : Text) (p : Parsed)
      → AtMostOne p.diag (handle_attribute_pair string_size is_valid_directory key value p).diag
  unfolding handle_attribute_pair
  handle_attribute_pair-AtMostOne key value p = handled (attribute_of key) key value p
