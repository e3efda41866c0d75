-- ===== src/TimestreamColumn.antt =====
-- src/odbc/src/timestream_column.cpp: a value of the service read into the application's buffer. A value is given
-- by the member that the driver's tests find set first. A nested value is printed into a local buffer of 1024 bytes, of which the text up to
-- the first NUL is read back.
pub mod Scanning
pub mod Bounds
pub mod Rendering
pub mod Nested
pub mod Examples
pub mod Intervals
use amazon_timestream_odbc_d.Base.{
  if◌then◌else◌, length, get_elem?, ◌+ℤ◌, ◌-ℤ◌, ◌*ℤ◌, to_signed, ℤ, pos, Text, bytes, text_eq, ℕ,
  Option, none, some, List, [], ◌∷◌, ◌++◌,
}
use amazon_timestream_odbc_d.TimestreamColumn.Scanning.{
  scan, string_to_number, Directive, number, exactly, space,
}
use amazon_timestream_odbc_d.TypeTraits.{
  ScalarType, boolean, integer, bigint, double, date, time, timestamp, interval_day_to_second,
  interval_year_to_month, varchar, not_set, unknown, ai_char,
}
use mathlib.Core.Option
use amazon_timestream_odbc_d.Cursor.{success, no_data, failure}
use amazon_timestream_odbc_d.Utility.{c_str}
use amazon_timestream_odbc_d.AppBuffer.{new_buffer, ApplicationDataBuffer}
use amazon_timestream_odbc_d.AppBuffer.Platform.{Tm, Platform}
use amazon_timestream_odbc_d.AppBuffer.Store.{with_value, Stored, Outcome, chars}
use amazon_timestream_odbc_d.AppBuffer.Dates.{unsupported, put_date, put_timestamp, put_time}
use amazon_timestream_odbc_d.AppBuffer.Puts.{
  put_null, put_string, put_int8, put_int32, put_int64, put_double,
}
use amazon_timestream_odbc_d.AppBuffer.Intervals.{put_year_month, put_day_second}

mutual
  -- `Aws::TimestreamQuery::Model::Datum`; a row may have no data set, and a point of a series no time or no
  -- value.
  pub data Datum : Type 0 where
    scalar : Text → Datum
    time_series : Points → Datum
    array : Data → Datum
    row : Data → Datum
    row_without_data : Datum
    null_value : Datum
    unset : Datum

  pub data Data : Type 0 where
    empty_data : Data
    data_then : Datum → Data → Data

  pub data Points : Type 0 where
    no_points : Points
    point : Option Text → Datum → Points → Points
    point_without_value : Option Text → Points → Points

-- The scalar type of the column's description, `none` where the description or its type is not set.
abbrev pub ColumnType : Type 0
ColumnType = Option ScalarType

abbrev pub or_zero : Option ℤ → ℤ
or_zero none = pos 0
or_zero (some z) = z

-- The `struct tm` of the numbers read, whose other members are 0.
abbrev pub tm_of : List ℤ → Tm
tm_of zs = record {
  tm_year = or_zero (get_elem? zs 0) -ℤ pos 1900;
  tm_mon = or_zero (get_elem? zs 1) -ℤ pos 1;
  tm_mday = or_zero (get_elem? zs 2);
  tm_hour = or_zero (get_elem? zs 3);
  tm_min = or_zero (get_elem? zs 4);
  tm_sec = or_zero (get_elem? zs 5);
}

abbrev pub date_format : List Directive
date_format = number 4 ∷ exactly 45 ∷ number 2 ∷ exactly 45 ∷ number 2 ∷ []

abbrev pub clock_format : List Directive
clock_format = number 2 ∷ exactly 58 ∷ number 2 ∷ exactly 58 ∷ number 2 ∷ exactly 46 ∷ number 9 ∷ []

-- A conversion %d has no width: the length of the text bounds it.
abbrev pub any_number : Text → Directive
any_number s = number (length s)

abbrev pub year_month_format : Text → List Directive
year_month_format s = any_number s ∷ exactly 45 ∷ any_number s ∷ []

abbrev pub day_second_format : Text → List Directive
day_second_format s = any_number s ∷ space ∷ clock_format

-- The local buffer, which lies at an address that is not null, as its length does.
abbrev pub tmp_buf : ApplicationDataBuffer
tmp_buf = new_buffer ai_char 1 1024 2048

-- What is read back from the local buffer, which was all NULs.
abbrev pub text_in : Option Stored → Text
text_in (some (chars s)) = c_str s
text_in _ = []

-- `pop_back` of a text that is not empty.
abbrev pub pop_back : Text → Text
pop_back [] = []
pop_back (c ∷ []) = []
pop_back (c ∷ d ∷ ds) = c ∷ pop_back (d ∷ ds)

abbrev pub time_of_point : Option Text → Text
time_of_point none = []
time_of_point (some t) = t

abbrev pub point_text : Option Text → Text → Text
point_text t value = bytes "{time: " ++ time_of_point t ++ bytes ", value: " ++ value ++ bytes "},"

-- The array's text: nothing for an array without values.
abbrev pub array_text : Text → Text
array_text [] = []
array_text (c ∷ cs) = pop_back (91 ∷ c ∷ cs) ++ 93 ∷ []

-- The text between brackets, without the last comma.
abbrev pub enclose : ℕ → Text → ℕ → Text
enclose left [] right = left ∷ right ∷ []
enclose left (c ∷ cs) right = pop_back (left ∷ c ∷ cs) ++ right ∷ []

-- What is read back from the local buffer, changed, and the texts after it.
abbrev pub add_text : (Text → Text) → Option Outcome → Option Text → Option Text
add_text f none rest = none
add_text f (some o) none = none
add_text f (some o) (some t) = some (f (text_in o.stored) ++ t)

-- The result of `PutNull` is dropped.
abbrev pub succeeded : Option Outcome → Option Outcome
succeeded none = none
succeeded (some o) = some record o { result = success }

module _ (p : Platform) where
  -- A number that `sscanf` did not assign is not initialised: its use has no defined result.
  abbrev pub put_timestamp_numbers : ApplicationDataBuffer → List ℤ → Option Outcome
  put_timestamp_numbers b zs =
      with_value (get_elem? zs 6)
        (λ f. put_timestamp p b record { seconds = p.time_gm (tm_of zs); fraction_ns = f })

  -- The hours, minutes and seconds are unsigned numbers of 32 bits.
  abbrev pub put_time_numbers : ApplicationDataBuffer → List ℤ → Option Outcome
  put_time_numbers b (h ∷ m ∷ s ∷ f ∷ []) =
      put_time p b record { seconds = to_signed 32 ((h *ℤ 60 +ℤ m) *ℤ 60 +ℤ s); fraction_ns = f }
  put_time_numbers b _ = none

  abbrev pub put_year_month_numbers : ApplicationDataBuffer → List ℤ → Option Outcome
  put_year_month_numbers b (y ∷ m ∷ []) = put_year_month p b record { year = y; month = m }
  put_year_month_numbers b _ = none

  abbrev pub put_day_second_numbers : ApplicationDataBuffer → List ℤ → Option Outcome
  put_day_second_numbers b (d ∷ h ∷ m ∷ s ∷ f ∷ []) =
      put_day_second p b record { day = d; hour = h; minute = m; second = s; fraction_ns = f }
  put_day_second_numbers b _ = none

  unfoldable pub parse_scalar_type : ScalarType → Text → ApplicationDataBuffer → Option Outcome
  parse_scalar_type varchar value b = put_string p b value
  parse_scalar_type double value b = with_value (p.stod value) (put_double p b)
  parse_scalar_type boolean value b =
      put_int8 p b (if text_eq value (bytes "true") then pos 1 else pos 0)
  parse_scalar_type integer value b = put_int32 p b (string_to_number 32 value)
  parse_scalar_type bigint value b = put_int64 p b (string_to_number 64 value)
  parse_scalar_type not_set value b = put_null b
  parse_scalar_type unknown value b = put_null b
  parse_scalar_type timestamp value b =
      put_timestamp_numbers b (scan (date_format ++ space ∷ clock_format) (c_str value))
  parse_scalar_type date value b =
      put_date p b (p.date_seconds (p.time_gm (tm_of (scan date_format (c_str value))) *ℤ 1000))
  parse_scalar_type time value b = put_time_numbers b (scan clock_format (c_str value))
  parse_scalar_type interval_year_to_month value b =
      put_year_month_numbers b (scan (year_month_format (c_str value)) (c_str value))
  parse_scalar_type interval_day_to_second value b =
      put_day_second_numbers b (scan (day_second_format (c_str value)) (c_str value))
  parse_scalar_type (ScalarType.other code) value b = unsupported b

  abbrev pub put_text : ApplicationDataBuffer → Option Text → Option Outcome
  put_text b s = with_value s (put_string p b)

  unfoldable mutual
    -- `ParseDatum`, with `ParseTimeSeriesType`, `ParseArrayType` and `ParseRowType`.
    pub parse_datum : ScalarType → Datum → ApplicationDataBuffer → Option Outcome
    parse_datum ty (scalar value) b = parse_scalar_type ty value b
    parse_datum ty (time_series ps) b =
        put_text b (Option.map (λ s. enclose 91 s 93) (point_texts ty ps))
    parse_datum ty (array ds) b = put_text b (Option.map array_text (element_texts ty ds))
    parse_datum ty (row ds) b = put_text b (Option.map (λ s. enclose 40 s 41) (element_texts ty ds))
    parse_datum ty row_without_data b =
        some record { result = no_data; stored = none; length_stored = none; after = b }
    parse_datum ty null_value b = succeeded (put_null b)
    parse_datum ty unset b =
        some record { result = failure; stored = none; length_stored = none; after = b }

    -- The texts of the elements, a comma after each.
    pub element_texts : ScalarType → Data → Option Text
    element_texts ty empty_data = some []
    element_texts ty (data_then d ds) =
        add_text (λ s. s ++ 44 ∷ []) (parse_datum ty d tmp_buf) (element_texts ty ds)

    -- The texts of the points of a series, a comma after each.
    pub point_texts : ScalarType → Points → Option Text
    point_texts ty no_points = some []
    point_texts ty (point t d ps) =
        add_text (point_text t) (parse_datum ty d tmp_buf) (point_texts ty ps)
    point_texts ty (point_without_value t ps) =
        Option.map (λ s. point_text t [] ++ s) (point_texts ty ps)

  unfoldable pub read_to_buffer : ColumnType → Datum → ApplicationDataBuffer → Option Outcome
  read_to_buffer none d b =
      some record { result = failure; stored = none; length_stored = none; after = b }
  read_to_buffer (some ty) d b = parse_datum ty d b
