-- ===== src/Config/NameLaws.antt =====
-- Reading back the texts of the types of authentication and of the log levels.
use amazon_timestream_odbc_d.Base.{Text, ◌≡◌, refl}
use amazon_timestream_odbc_d.Config.Texts.{to_lower, trim}
use amazon_timestream_odbc_d.Config.Settings.{
  set_to, auth_type_from_string, log_level_from_string, auth_type_to_string, log_level_to_string,
  AuthType, LogLevel, aws_profile, iam, aad, okta, off, error_level, warning_level, info_level,
  debug_level, unknown,
}
use amazon_timestream_odbc_d.Config.Attributes.{put_auth, put_auth_type, Parsed}

-- The text of a type of authentication, in any case of letters and with white space around it, sets
-- that type as the connection string's AUTH, and nothing is reported.
pub put_auth_type-auth_type_to_string :
    (t : AuthType) (value : Text) (p : Parsed)
    → trim (to_lower value) ≡ auth_type_to_string t
    → put_auth_type value p ≡ record p { cfg = record p.cfg { auth_type = set_to t } }
unfolding put_auth_type put_auth auth_type_from_string auth_type_to_string
put_auth_type-auth_type_to_string aws_profile value p e = rw e refl
put_auth_type-auth_type_to_string iam value p e = rw e refl
put_auth_type-auth_type_to_string aad value p e = rw e refl
put_auth_type-auth_type_to_string okta value p e = rw e refl

-- Every log level is read back from its text, with white space around it, and so is the unknown one.
pub log_level_from_string-log_level_to_string :
    (l : LogLevel) (value : Text)
    → trim value ≡ log_level_to_string l
    → log_level_from_string value ≡ l
unfolding log_level_from_string log_level_to_string
log_level_from_string-log_level_to_string off value e = rw e refl
log_level_from_string-log_level_to_string error_level value e = rw e refl
log_level_from_string-log_level_to_string warning_level value e = rw e refl
log_level_from_string-log_level_to_string info_level value e = rw e refl
log_level_from_string-log_level_to_string debug_level value e = rw e refl
log_level_from_string-log_level_to_string unknown value e = rw e refl
