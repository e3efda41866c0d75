-- ===== src/AppBuffer/Bounds.antt =====
-- What an operation stores lies within the element of the application's buffer that it is for.
use amazon_timestream_odbc_d.Base.{
  length, take, length-take, ℤ, pos, Text, ℕ, ◌+◌, ◌≤◌, min, ◌≡◌, true, false, arith,
}
use amazon_timestream_odbc_d.Cursor.{success, varlen_data_truncated, fractional_truncated}
use amazon_timestream_odbc_d.Values.{
  time_of_ms, timestamp_of_ms, Time, Timestamp, IntervalYearMonth, IntervalDaySecond,
}
use amazon_timestream_odbc_d.AppBuffer.{element_size, ApplicationDataBuffer}
use amazon_timestream_odbc_d.AppBuffer.Platform.{Platform}
use amazon_timestream_odbc_d.AppBuffer.Printing.{read_int64}
use amazon_timestream_odbc_d.AppBuffer.Store.{
  IntervalStruct, number, real, numeric, date_value, time_value, timestamp_value,
}
use amazon_timestream_odbc_d.AppBuffer.Dates.{
  date_text, date_struct, time_struct, timestamp_struct, clock_text, timestamp_text, put_date,
  put_timestamp, put_time,
}
use amazon_timestream_odbc_d.AppBuffer.Puts.{
  put_null, cast_signed, cast_unsigned, cast_real, number_text, size_of, bytes_of, numeric_of,
  put_num, put_read_int64, put_read_double, put_string, Number, int, float,
}
use amazon_timestream_odbc_d.AppBuffer.Intervals.{
  year_month_struct, day_second_struct, year_month_text, day_second_text, put_interval_parts,
  put_year_month, put_day_second,
}
use amazon_timestream_odbc_d.AppBuffer.Extents.{
  is_sized, extent, extent-with_value, extent-done, extent-put_struct, extent-put_chars,
  extent-put_wide, extent-put_wide_date, extent-put_str,
}

module _ (p : Platform) where
  pub extent-put_date :
      (b : ApplicationDataBuffer) (seconds : ℤ)
      → extent p (put_date p b seconds) ≤ element_size b.type b.buflen
  unfolding put_date element_size
  extent-put_date b z =
      let t = p.gm_time z in
      ground (
        arith,
        extent-put_chars p b (take 31 (date_text p t)) 11,
        extent-put_wide_date p b (take 31 (date_text p t)) 11,
        extent-put_struct p b success (date_value (date_struct p t)) 6 6 (omega arith),
        extent-put_struct p b success (timestamp_value (timestamp_struct p t (pos 0))) 16 16
            (omega arith),
      )

  pub extent-put_timestamp :
      (b : ApplicationDataBuffer) (v : Timestamp)
      → extent p (put_timestamp p b v) ≤ element_size b.type b.buflen
  unfolding put_timestamp element_size
  extent-put_timestamp b v =
      let t = p.gm_time v.seconds in
      let f = v.fraction_ns in
      ground (
        arith,
        extent-put_chars p b (timestamp_text p t f) 30,
        extent-put_wide p b (timestamp_text p t f) 30,
        extent-put_struct p b fractional_truncated (date_value (date_struct p t)) 6 6 (omega arith),
        extent-put_struct p b fractional_truncated (time_value (time_struct p t)) 6 6 (omega arith),
        extent-put_struct p b success (timestamp_value (timestamp_struct p t f)) 16 16
            (omega arith),
      )

  pub extent-put_time :
      (b : ApplicationDataBuffer) (v : Time)
      → extent p (put_time p b v) ≤ element_size b.type b.buflen
  unfolding put_time element_size
  extent-put_time b v =
      let t = p.gm_time v.seconds in
      let f = v.fraction_ns in
      ground (
        arith,
        extent-put_chars p b (clock_text p t f) 19,
        extent-put_wide p b (clock_text p t f) 19,
        extent-put_struct p b varlen_data_truncated (time_value (time_struct p t)) 6 6
            (omega arith),
        extent-put_struct p b success (timestamp_value (timestamp_struct p t f)) 16 16
            (omega arith),
      )

  bytes_of-fits : (v : Number) (n : ℕ) → length (take (min (size_of p v) n) (bytes_of p v)) ≤ n
  bytes_of-fits v n = omega (arith, length-take (min (size_of p v) n) (bytes_of p v))

  pub extent-put_num :
      (b : ApplicationDataBuffer) (v : Number)
      → is_sized b.type ≡ true
      → extent p (put_num p b v) ≤ element_size b.type b.buflen
  unfolding put_num element_size
  extent-put_num b v h =
      let z = cast_signed p 64 v in
      let s = number_text p v in
      ground (
        arith,
        extent-done p b success (number 1 (cast_signed p 8 v)) 1 1 (omega arith),
        extent-done p b success (number 1 (cast_unsigned p 8 v)) 1 1 (omega arith),
        extent-done p b success (number 2 (cast_signed p 16 v)) 2 2 (omega arith),
        extent-done p b success (number 2 (cast_unsigned p 16 v)) 2 2 (omega arith),
        extent-done p b success (number 4 (cast_signed p 32 v)) 4 4 (omega arith),
        extent-done p b success (number 4 (cast_unsigned p 32 v)) 4 4 (omega arith),
        extent-done p b success (number 8 (cast_signed p 64 v)) 8 8 (omega arith),
        extent-done p b success (number 8 (cast_unsigned p 64 v)) 8 8 (omega arith),
        extent-done p b success (real 4 (cast_real p 4 v)) 4 4 (omega arith),
        extent-done p b success (real 8 (cast_real p 8 v)) 8 8 (omega arith),
        extent-done p b success (numeric (numeric_of p v)) 19 19 (omega arith),
        extent-put_str p b false s,
        extent-put_str p b true s,
        bytes_of-fits v b.buflen,
        extent-put_date b (p.date_seconds z),
        extent-put_timestamp b (timestamp_of_ms z),
        extent-put_time b (time_of_ms z),
      )

  extent-put_read_int64 :
      (b : ApplicationDataBuffer) (s : Text)
      → is_sized b.type ≡ true
      → extent p (put_read_int64 p b s) ≤ element_size b.type b.buflen
  extent-put_read_int64 b s h =
      extent-with_value p (read_int64 s) (λ z. put_num p b (int 8 z)) (element_size b.type b.buflen)
        (λ z. extent-put_num b (int 8 z) h)

  extent-put_read_double :
      (b : ApplicationDataBuffer) (s : Text)
      → is_sized b.type ≡ true
      → extent p (put_read_double p b s) ≤ element_size b.type b.buflen
  extent-put_read_double b s h =
      extent-with_value p (p.read_double s) (λ x. put_num p b (float 8 x))
        (element_size b.type b.buflen) (λ x. extent-put_num b (float 8 x) h)

  -- No text put in a buffer whose type has a size stores more than an element of it.
  pub extent-put_string :
      (b : ApplicationDataBuffer) (s : Text)
      → is_sized b.type ≡ true
      → extent p (put_string p b s) ≤ element_size b.type b.buflen
  unfolding put_string element_size
  extent-put_string b s h = ground (
    arith,
    extent-put_read_int64 b s h,
    extent-put_read_double b s h,
    extent-put_str p b false s,
    extent-put_str p b true s,
  )

  extent-put_interval :
      (b : ApplicationDataBuffer) (s : Text) (v : IntervalStruct)
      → is_sized b.type ≡ true
      → extent p (put_interval_parts p b s v) ≤ element_size b.type b.buflen
  unfolding put_interval_parts element_size
  extent-put_interval b s v h =
      ground (arith, extent-put_chars p b s (length s + 1), extent-put_wide p b s (length s + 1))

  pub extent-put_year_month :
      (b : ApplicationDataBuffer) (v : IntervalYearMonth)
      → is_sized b.type ≡ true
      → extent p (put_year_month p b v) ≤ element_size b.type b.buflen
  unfolding put_year_month
  extent-put_year_month b v h =
      extent-put_interval b (year_month_text v) (year_month_struct b.type v) h

  pub extent-put_day_second :
      (b : ApplicationDataBuffer) (v : IntervalDaySecond)
      → is_sized b.type ≡ true
      → extent p (put_day_second p b v) ≤ element_size b.type b.buflen
  unfolding put_day_second
  extent-put_day_second b v h =
      extent-put_interval b (day_second_text v) (day_second_struct b.type v) h

  pub extent-put_null : (b : ApplicationDataBuffer) → extent p (put_null b) ≡ 0
  unfolding put_null
  extent-put_null b = ground arith
