-- ===== src/AppBuffer/Dates.antt =====
-- src/odbc/src/app/application_data_buffer.cpp: dates, timestamps and times. A store through a null pointer to a
-- structure, and the closing NUL before the start of an empty buffer, have no defined behaviour.
use amazon_timestream_odbc_d.Base.{
  ltb, leb, ◌==◌, if◌then◌else◌, length, set, take, replicate, ◌+ℤ◌, ℤ, pos, Text, ℕ, ◌-◌, true,
  false, Option, none, some, [], ◌∷◌, ◌++◌,
}
use amazon_timestream_odbc_d.TypeTraits.{ai_char, ai_wchar, ai_tdate, ai_ttime, ai_ttimestamp}
use amazon_timestream_odbc_d.Cursor.{
  ConversionResult, success, varlen_data_truncated, fractional_truncated, unsupported_conversion,
}
use amazon_timestream_odbc_d.Utility.{copy_utf8_string_to_sql_wchar_string, Copied}
use amazon_timestream_odbc_d.Values.{Time, Timestamp}
use amazon_timestream_odbc_d.AppBuffer.{get_data, get_res_len, ApplicationDataBuffer}
use amazon_timestream_odbc_d.AppBuffer.Platform.{Tm, Platform}
use amazon_timestream_odbc_d.AppBuffer.Printing.{print_int, pad_zeros, pad_spaces}
use amazon_timestream_odbc_d.AppBuffer.Store.{
  through, DateStruct, TimeStruct, TimestampStruct, Stored, Outcome, chars, wide, date_value,
  time_value, timestamp_value,
}

abbrev pub done : ApplicationDataBuffer → ConversionResult → Stored → ℕ → Option Outcome
done b result s n = some record {
  result = result;
  stored = through (get_data b) s;
  length_stored = through (get_res_len b) (pos n);
  after = b;
}

abbrev pub unsupported : ApplicationDataBuffer → Option Outcome
unsupported b =
    some record { result = unsupported_conversion; stored = none; length_stored = none; after = b }

-- A structure is stored without a test of the pointer.
abbrev pub put_struct : ApplicationDataBuffer → ConversionResult → Stored → ℕ → Option Outcome
put_struct b result s n = if get_data b == 0 then none else done b result s n

-- `strncpy` of n bytes of a text: NULs follow where it is shorter.
abbrev pub strncpy : Text → ℕ → Text
strncpy s n = take n (s ++ replicate (n - length s) 0)

-- The text is put with room for `size` bytes, its closing NUL among them, and cut off by a NUL where
-- the buffer is shorter; the length reported is one less.
unfoldable pub put_chars : ApplicationDataBuffer → Text → ℕ → Option Outcome
put_chars b text size =
    if get_data b == 0
    then done b success (chars []) (size - 1)
    else if leb size b.buflen
    then done b success (chars (strncpy text size)) (size - 1)
    else if b.buflen == 0
    then none
    else done b varlen_data_truncated (chars (set (strncpy text b.buflen) (b.buflen - 1) 0))
        (size - 1)

module _ (p : Platform) where
  -- The copy that `CopyStringToBuffer` makes, with the buffer's length in bytes.
  abbrev pub wide_copy : ApplicationDataBuffer → Text → Copied
  wide_copy b text =
      copy_utf8_string_to_sql_wchar_string p.codecvt p.wchar_size text true b.buflen false

  unfoldable pub put_wide : ApplicationDataBuffer → Text → ℕ → Option Outcome
  put_wide b text size =
      let copied = wide_copy b text in
      if get_data b == 0
      then done b success (wide []) (size - 1)
      else done b (if copied.is_truncated then varlen_data_truncated else success)
          (wide copied.written) (size - 1)

  -- The wide text of a date is truncated where the length in bytes is less than its characters.
  unfoldable pub put_wide_date : ApplicationDataBuffer → Text → ℕ → Option Outcome
  put_wide_date b text size =
      done b (if ltb b.buflen size then varlen_data_truncated else success)
        (wide (wide_copy b text).written) (size - 1)

  abbrev pub date_text : Tm → Text
  date_text t =
      pad_spaces 4 (t.tm_year +ℤ pos 1900)
      ++ (45 ∷ pad_zeros 2 (t.tm_mon +ℤ pos 1))
      ++ (45 ∷ pad_zeros 2 t.tm_mday)

  abbrev pub date_struct : Tm → DateStruct
  date_struct t = record {
    year = t.tm_year +ℤ pos 1900;
    month = t.tm_mon +ℤ pos 1;
    day = t.tm_mday;
  }

  abbrev pub time_struct : Tm → TimeStruct
  time_struct t = record { hour = t.tm_hour; minute = t.tm_min; second = t.tm_sec }

  abbrev pub timestamp_struct : Tm → ℤ → TimestampStruct
  timestamp_struct t fraction = record {
    date = date_struct t;
    time = time_struct t;
    fraction = fraction;
  }

  -- The clock of `strftime`, "%H:%M:%S.", and the fraction after it.
  abbrev pub clock_text : Tm → ℤ → Text
  clock_text t fraction =
      pad_zeros 2 t.tm_hour
      ++ (58 ∷ pad_zeros 2 t.tm_min)
      ++ (58 ∷ pad_zeros 2 t.tm_sec)
      ++ (46 ∷ pad_zeros 9 fraction)

  -- The text of `GetTimestampString` for the pattern "%Y-%m-%d %H:%M:%S.".
  abbrev pub timestamp_text : Tm → ℤ → Text
  timestamp_text t fraction =
      print_int (t.tm_year +ℤ pos 1900)
      ++ (45 ∷ pad_zeros 2 (t.tm_mon +ℤ pos 1))
      ++ (45 ∷ pad_zeros 2 t.tm_mday)
      ++ (32 ∷ clock_text t fraction)

  -- A `Date` is given by its seconds.
  unfoldable pub put_date : ApplicationDataBuffer → ℤ → Option Outcome
  put_date b seconds =
      let t = p.gm_time seconds in
      elim b.type [
        | ai_char ↦ put_chars b (take 31 (date_text t)) 11
        | ai_wchar ↦ put_wide_date b (take 31 (date_text t)) 11
        | ai_tdate ↦ put_struct b success (date_value (date_struct t)) 6
        | ai_ttimestamp ↦ put_struct b success (timestamp_value (timestamp_struct t (pos 0))) 16
        | _ ↦ unsupported b
      ]

  unfoldable pub put_timestamp : ApplicationDataBuffer → Timestamp → Option Outcome
  put_timestamp b value =
      let t = p.gm_time value.seconds in
      elim b.type [
        | ai_char ↦ put_chars b (timestamp_text t value.fraction_ns) 30
        | ai_wchar ↦ put_wide b (timestamp_text t value.fraction_ns) 30
        | ai_tdate ↦ put_struct b fractional_truncated (date_value (date_struct t)) 6
        | ai_ttime ↦ put_struct b fractional_truncated (time_value (time_struct t)) 6
        | ai_ttimestamp ↦
            put_struct b success (timestamp_value (timestamp_struct t value.fraction_ns)) 16
        | _ ↦ unsupported b
      ]

  unfoldable pub put_time : ApplicationDataBuffer → Time → Option Outcome
  put_time b value =
      let t = p.gm_time value.seconds in
      elim b.type [
        | ai_char ↦ put_chars b (clock_text t value.fraction_ns) 19
        | ai_wchar ↦ put_wide b (clock_text t value.fraction_ns) 19
        | ai_ttime ↦ put_struct b varlen_data_truncated (time_value (time_struct t)) 6
        | ai_ttimestamp ↦
            put_struct b success (timestamp_value (timestamp_struct t value.fraction_ns)) 16
        | _ ↦ unsupported b
      ]
