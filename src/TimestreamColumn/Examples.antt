-- ===== src/TimestreamColumn/Examples.antt =====
-- Values of the service at work.
use amazon_timestream_odbc_d.Base.{
  take, replicate, to_signed, pos, negsuc, Text, bytes, ◌+◌, ◌≤◌, ◌≡◌, refl, some, [], ◌∷◌, ◌++◌,
  arith,
}
use amazon_timestream_odbc_d.TypeTraits.{varchar, ai_interval_year, ai_interval_day_to_second}
use amazon_timestream_odbc_d.Values.{IntervalYearMonth, IntervalDaySecond}
use amazon_timestream_odbc_d.Values.YearMonths
use amazon_timestream_odbc_d.Values.DaySeconds
use amazon_timestream_odbc_d.AppBuffer.{get_data, set_element_offset, ApplicationDataBuffer}
use amazon_timestream_odbc_d.AppBuffer.Puts.{put_string}
use amazon_timestream_odbc_d.AppBuffer.Intervals.{
  year_month_struct, day_second_struct, put_year_month, put_day_second,
}
use amazon_timestream_odbc_d.AppBuffer.Extents.{extent}
use amazon_timestream_odbc_d.AppBuffer.Examples.{plain, plain-IsExact, char_buffer}
use amazon_timestream_odbc_d.TimestreamColumn.{
  date_format, clock_format, read_to_buffer, Datum, scalar, array, row, empty_data, data_then,
}
use amazon_timestream_odbc_d.TimestreamColumn.Scanning.{scan_number, scan, string_to_number, space}
use amazon_timestream_odbc_d.TimestreamColumn.Rendering.{render, is_printable}
use amazon_timestream_odbc_d.TimestreamColumn.Nested.{read_to_buffer-render, read_to_buffer_cuts}
use amazon_timestream_odbc_d.TimestreamColumn.Bounds.{rows-apart}
use amazon_timestream_odbc_d.TimestreamColumn.Intervals.{
  interval_rows_overlap, no_months, no_time, interval_sign-ge,
}
use amazon_timestream_odbc_d.Config.Texts.{decimal_from, decimal, drop_while}

-- [(a,b),(c)]
abbrev rows : Datum
rows = array (
    data_then (row (data_then (scalar (bytes "a")) (data_then (scalar (bytes "b")) empty_data)))
      (data_then (row (data_then (scalar (bytes "c")) empty_data)) empty_data))

rows_text : render rows ≡ bytes "[(a,b),(c)]"
unfolding render
rows_text = refl

read_to_buffer-render_example :
    read_to_buffer plain (some varchar) rows (char_buffer 64 (negsuc 0))
    ≡ put_string plain (char_buffer 64 (negsuc 0)) (render rows)
unfolding is_printable render
read_to_buffer-render_example =
    read_to_buffer-render plain plain-IsExact (char_buffer 64 (negsuc 0)) rows refl refl

abbrev long_text : Text
long_text = replicate 1030 97

read_to_buffer_cuts_example :
    read_to_buffer plain
      (some varchar)
      (array (data_then (scalar long_text) empty_data))
      (char_buffer 64 (negsuc 0))
    ≡ put_string plain (char_buffer 64 (negsuc 0)) (91 ∷ (take 1023 long_text ++ 93 ∷ []))
read_to_buffer_cuts_example =
    read_to_buffer_cuts plain plain-IsExact (char_buffer 64 (negsuc 0)) long_text refl (omega arith)
      (omega arith)

rows-apart_example :
    get_data (set_element_offset (char_buffer 8 (negsuc 0)) 1)
      + extent plain (
          read_to_buffer plain
            (some varchar)
            rows
            (set_element_offset (char_buffer 8 (negsuc 0)) 1))
    ≤ get_data (set_element_offset (char_buffer 8 (negsuc 0)) 2)
rows-apart_example =
    rows-apart plain (char_buffer 8 (negsuc 0)) (some varchar) rows 1 2 refl (λ e. omega arith)
      (omega arith)

abbrev interval_buffer : ApplicationDataBuffer
interval_buffer = record (char_buffer 28 (negsuc 0)) { type = ai_interval_day_to_second }

abbrev months : IntervalYearMonth
months = record { year = negsuc 0; month = pos 0 }

abbrev days : IntervalDaySecond
days = record { day = pos 1; hour = pos 2; minute = pos 0; second = pos 0; fraction_ns = pos 0 }

interval_rows_overlap_example :
    (get_data (set_element_offset interval_buffer 0)
      ≡ get_data (set_element_offset interval_buffer 5))
    × (extent plain (put_year_month plain (set_element_offset interval_buffer 0) months) ≡ 28)
    × (extent plain (put_day_second plain (set_element_offset interval_buffer 0) days) ≡ 28)
interval_rows_overlap_example =
    interval_rows_overlap plain interval_buffer months days 0 5 refl (λ e. omega arith)

interval_sign-ge_example :
    ((year_month_struct ai_interval_year months).interval_sign ≡ YearMonths.ge months no_months)
    × ((day_second_struct ai_interval_year days).interval_sign ≡ DaySeconds.ge days no_time)
interval_sign-ge_example =
    interval_sign-ge ai_interval_year months days (omega arith, omega arith, omega arith)

scanned :
    scan (date_format ++ space ∷ clock_format) (bytes "2024-01-02 03:04:05.000000006")
    ≡ pos 2024 ∷ pos 1 ∷ pos 2 ∷ pos 3 ∷ pos 4 ∷ pos 5 ∷ pos 6 ∷ []
unfolding scan scan_number drop_while decimal decimal_from
scanned = refl

out_of_range : string_to_number 32 (bytes "2147483648") ≡ pos 0
unfolding string_to_number scan_number drop_while decimal decimal_from to_signed
out_of_range = refl
