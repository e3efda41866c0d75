-- ===== src/AppBuffer/Intervals.antt =====
-- src/odbc/src/app/application_data_buffer.cpp: the two intervals put in a buffer.
use amazon_timestream_odbc_d.Base.{
  length, take, ltb_ℤ, eqb_ℤ, magnitude, pos, Text, ◌+◌, Bool, not, ◌&&◌, ◌||◌, Option, none, some,
  ◌∷◌, ◌++◌,
}
use amazon_timestream_odbc_d.TypeTraits.{
  OdbcNativeType, ai_char, ai_wchar, ai_interval_year, ai_interval_month, ai_interval_day,
  ai_interval_hour, ai_interval_minute, ai_interval_second, ai_interval_day_to_hour,
  ai_interval_day_to_minute, ai_interval_hour_to_minute, ai_interval_hour_to_second,
  ai_interval_minute_to_second, ai_interval_year_to_month, ai_interval_day_to_second,
}
use amazon_timestream_odbc_d.Cursor.{success}
use amazon_timestream_odbc_d.Values.{IntervalYearMonth, IntervalDaySecond}
use amazon_timestream_odbc_d.AppBuffer.{ApplicationDataBuffer}
use amazon_timestream_odbc_d.AppBuffer.Platform.{Platform}
use amazon_timestream_odbc_d.AppBuffer.Printing.{print_int, pad_zeros}
use amazon_timestream_odbc_d.AppBuffer.Store.{
  IntervalType, IntervalStruct, Outcome, sql_is_year, sql_is_month, sql_is_day, sql_is_hour,
  sql_is_minute, sql_is_second, sql_is_day_to_hour, sql_is_day_to_minute, sql_is_hour_to_minute,
  sql_is_hour_to_second, sql_is_minute_to_second, sql_is_year_to_month, sql_is_day_to_second,
  interval_value,
}
use amazon_timestream_odbc_d.AppBuffer.Dates.{unsupported, put_struct, put_chars, put_wide}

-- `SetIntervalType`.
unfoldable pub interval_type_of : OdbcNativeType → Option IntervalType
interval_type_of ai_interval_year = some sql_is_year
interval_type_of ai_interval_month = some sql_is_month
interval_type_of ai_interval_day = some sql_is_day
interval_type_of ai_interval_hour = some sql_is_hour
interval_type_of ai_interval_minute = some sql_is_minute
interval_type_of ai_interval_second = some sql_is_second
interval_type_of ai_interval_day_to_hour = some sql_is_day_to_hour
interval_type_of ai_interval_day_to_minute = some sql_is_day_to_minute
interval_type_of ai_interval_hour_to_minute = some sql_is_hour_to_minute
interval_type_of ai_interval_hour_to_second = some sql_is_hour_to_second
interval_type_of ai_interval_minute_to_second = some sql_is_minute_to_second
interval_type_of ai_interval_year_to_month = some sql_is_year_to_month
interval_type_of ai_interval_day_to_second = some sql_is_day_to_second
interval_type_of _ = none

-- No member of the interval is stored; the sign is the argument.
abbrev pub sign_only : OdbcNativeType → Bool → IntervalStruct
sign_only type sign = record {
  interval_type = interval_type_of type;
  interval_sign = sign;
  year = none;
  month = none;
  day = none;
  hour = none;
  minute = none;
  second = none;
  fraction = none;
}

-- `SetIntervalBufferValue` for an interval of years and months. `true` is SQL_TRUE.
abbrev year_month_sign : IntervalYearMonth → Bool
year_month_sign v = not (ltb_ℤ v.year (pos 0) || (eqb_ℤ v.year (pos 0) && ltb_ℤ v.month (pos 0)))

unfoldable pub year_month_struct : OdbcNativeType → IntervalYearMonth → IntervalStruct
year_month_struct type v =
    let none_set = sign_only type (year_month_sign v) in
    elim type [
      | ai_interval_year ↦ record none_set { year = some (magnitude v.year) }
      | ai_interval_month ↦ record none_set { month = some (magnitude v.month) }
      | ai_interval_day ↦ record none_set { day = some 0 }
      | ai_interval_hour ↦ record none_set { hour = some 0 }
      | ai_interval_minute ↦ record none_set { minute = some 0 }
      | ai_interval_second ↦ record none_set { second = some 0; fraction = some 0 }
      | ai_interval_day_to_hour ↦ record none_set { day = some 0; hour = some 0 }
      | ai_interval_day_to_minute ↦ record none_set { day = some 0; hour = some 0; minute = some 0 }
      | ai_interval_hour_to_minute ↦ record none_set { hour = some 0; minute = some 0 }
      | ai_interval_hour_to_second ↦ record none_set {
        hour = some 0;
        minute = some 0;
        second = some 0;
        fraction = some 0;
      }
      | ai_interval_minute_to_second ↦ record none_set {
        minute = some 0;
        second = some 0;
        fraction = some 0;
      }
      | ai_interval_year_to_month ↦ record none_set {
        year = some (magnitude v.year);
        month = some (magnitude v.month);
      }
      | ai_interval_day_to_second ↦ record none_set {
        day = some 0;
        hour = some 0;
        minute = some 0;
        second = some 0;
        fraction = some 0;
      }
      | _ ↦ none_set
    ]

-- `SetIntervalBufferValue` for an interval of days, hours, minutes, seconds and nanoseconds.
abbrev pub day_second_sign : IntervalDaySecond → Bool
day_second_sign v = not (
    ltb_ℤ v.day (pos 0)
    || (eqb_ℤ v.day (pos 0) && ltb_ℤ v.hour (pos 0))
    || (eqb_ℤ v.day (pos 0) && eqb_ℤ v.hour (pos 0) && ltb_ℤ v.minute (pos 0))
    || (eqb_ℤ v.day (pos 0)
        && eqb_ℤ v.hour (pos 0)
        && eqb_ℤ v.minute (pos 0)
        && ltb_ℤ v.second (pos 0))
    || (eqb_ℤ v.day (pos 0)
        && eqb_ℤ v.hour (pos 0)
        && eqb_ℤ v.minute (pos 0)
        && eqb_ℤ v.second (pos 0)
        && ltb_ℤ v.fraction_ns (pos 0)))

unfoldable pub day_second_struct : OdbcNativeType → IntervalDaySecond → IntervalStruct
day_second_struct type v =
    let none_set = sign_only type (day_second_sign v) in
    elim type [
      | ai_interval_year ↦ record none_set { year = some 0 }
      | ai_interval_month ↦ record none_set { month = some 0 }
      | ai_interval_day ↦ record none_set { day = some (magnitude v.day) }
      | ai_interval_hour ↦ record none_set { hour = some (magnitude v.hour) }
      | ai_interval_minute ↦ record none_set { minute = some (magnitude v.minute) }
      | ai_interval_second ↦ record none_set {
        second = some (magnitude v.second);
        fraction = some (magnitude v.fraction_ns);
      }
      | ai_interval_day_to_hour ↦ record none_set {
        day = some (magnitude v.day);
        hour = some (magnitude v.hour);
      }
      | ai_interval_day_to_minute ↦ record none_set {
        day = some (magnitude v.day);
        hour = some (magnitude v.hour);
        minute = some (magnitude v.minute);
      }
      | ai_interval_hour_to_minute ↦ record none_set {
        hour = some (magnitude v.hour);
        minute = some (magnitude v.minute);
      }
      | ai_interval_hour_to_second ↦ record none_set {
        hour = some (magnitude v.hour);
        minute = some (magnitude v.minute);
        second = some (magnitude v.second);
        fraction = some (magnitude v.fraction_ns);
      }
      | ai_interval_minute_to_second ↦ record none_set {
        minute = some (magnitude v.minute);
        second = some (magnitude v.second);
        fraction = some (magnitude v.fraction_ns);
      }
      | ai_interval_year_to_month ↦ record none_set { year = some 0; month = some 0 }
      | ai_interval_day_to_second ↦ record none_set {
        day = some (magnitude v.day);
        hour = some (magnitude v.hour);
        minute = some (magnitude v.minute);
        second = some (magnitude v.second);
        fraction = some (magnitude v.fraction_ns);
      }
      | _ ↦ none_set
    ]

-- "%d-%d", of at most 31 bytes.
abbrev pub year_month_text : IntervalYearMonth → Text
year_month_text v = take 31 (print_int v.year ++ (45 ∷ print_int v.month))

-- "%d %02d:%02d:%02d.%09d", of at most 31 bytes.
abbrev pub day_second_text : IntervalDaySecond → Text
day_second_text v = take 31 (
    print_int v.day
    ++ (32 ∷ pad_zeros 2 v.hour)
    ++ (58 ∷ pad_zeros 2 v.minute)
    ++ (58 ∷ pad_zeros 2 v.second)
    ++ (46 ∷ pad_zeros 9 v.fraction_ns))

-- The switch that the two overloads of `PutInterval` have in common, over the text and the structure.
module _ (p : Platform) where
  unfoldable pub put_interval_parts : ApplicationDataBuffer → Text → IntervalStruct → Option Outcome
  put_interval_parts b text s = elim b.type [
    | ai_char ↦ put_chars b text (length text + 1)
    | ai_wchar ↦ put_wide p b text (length text + 1)
    | ai_interval_year ↦ put_struct b success (interval_value s) 28
    | ai_interval_month ↦ put_struct b success (interval_value s) 28
    | ai_interval_day ↦ put_struct b success (interval_value s) 28
    | ai_interval_hour ↦ put_struct b success (interval_value s) 28
    | ai_interval_minute ↦ put_struct b success (interval_value s) 28
    | ai_interval_second ↦ put_struct b success (interval_value s) 28
    | ai_interval_day_to_hour ↦ put_struct b success (interval_value s) 28
    | ai_interval_day_to_minute ↦ put_struct b success (interval_value s) 28
    | ai_interval_hour_to_minute ↦ put_struct b success (interval_value s) 28
    | ai_interval_hour_to_second ↦ put_struct b success (interval_value s) 28
    | ai_interval_minute_to_second ↦ put_struct b success (interval_value s) 28
    | ai_interval_year_to_month ↦ put_struct b success (interval_value s) 28
    | ai_interval_day_to_second ↦ put_struct b success (interval_value s) 28
    | _ ↦ unsupported b
  ]

  unfoldable pub put_year_month : ApplicationDataBuffer → IntervalYearMonth → Option Outcome
  put_year_month b v = put_interval_parts b (year_month_text v) (year_month_struct b.type v)

  unfoldable pub put_day_second : ApplicationDataBuffer → IntervalDaySecond → Option Outcome
  put_day_second b v = put_interval_parts b (day_second_text v) (day_second_struct b.type v)
