-- ===== src/AppBuffer/Platform.antt =====
-- What src/odbc/src/app/application_data_buffer.cpp and src/odbc/src/timestream_column.cpp use of the platform: the conversions of the C++
-- library, `timegm` and `stod`, `IgniteGmTime`, `Date` and `DigitLength` of the Ignite library, and the setting ANSI_STRING_ONLY of
-- the environment. A floating number is its bit pattern, with its size in bytes beside it.
use amazon_timestream_odbc_d.Base.{ℤ, Text, ℕ, Bool, Option, List}
use amazon_timestream_odbc_d.Utility.{Codecvt}

-- The fields of `struct tm` that are read.
pub record Tm : Type 0 where
  pub tm_year : ℤ
  pub tm_mon : ℤ
  pub tm_mday : ℤ
  pub tm_hour : ℤ
  pub tm_min : ℤ
  pub tm_sec : ℤ

-- `from_bytes` throws on bytes that are not UTF-8 and `stod` on a text of no number, which is `none`; `date_seconds` is
-- `Date(ms).GetSeconds()`; a real is read from a text by `operator>>`, which stores nothing on a text
-- of white space.
pub record Platform : Type 0 where
  pub wchar_size : ℕ
  pub ansi_string_only : Bool
  pub codecvt : Codecvt
  pub from_bytes : Text → Option (List ℕ)
  pub narrow : ℕ → ℕ
  pub gm_time : ℤ → Tm
  pub time_gm : Tm → ℤ
  pub date_seconds : ℤ → ℤ
  pub digit_length : ℕ → ℕ
  pub real_text : ℕ → ℕ → Text
  pub stod : Text → Option ℕ
  pub read_double : Text → Option ℕ
  pub real_of_int : ℕ → ℤ → ℕ
  pub convert_real : ℕ → ℕ → ℕ → ℕ
  pub real_negative : ℕ → ℕ → Bool
  pub truncate_real : ℕ → ℕ → ℤ
