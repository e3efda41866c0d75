-- ===== src/TimestreamColumn/Intervals.antt =====
-- Intervals in the application's buffer: their rows and their sign.
use amazon_timestream_odbc_d.Base.{
  pos_part, neg_part, ◌+ℤ◌, ◌*ℤ◌, ltb_ℤ, eqb_ℤ, magnitude, int_laws, pos, ℕ, ◌+◌, ◌*◌, ◌<◌, ◌≡◌,
  refl, ◌∙◌, ◌≢◌, Bool, true, false, not, ◌&&◌, ◌||◌, arith,
}
use amazon_timestream_odbc_d.TypeTraits.{OdbcNativeType, ai_default}
use amazon_timestream_odbc_d.Values.{IntervalYearMonth, IntervalDaySecond}
use amazon_timestream_odbc_d.AppBuffer.{
  apply_offset, element_size, get_element_size, get_data, set_element_offset, ApplicationDataBuffer,
}
use amazon_timestream_odbc_d.AppBuffer.Platform.{Platform}
use amazon_timestream_odbc_d.AppBuffer.Intervals.{
  year_month_struct, day_second_sign, day_second_struct, put_interval_parts, put_year_month,
  put_day_second,
}
use amazon_timestream_odbc_d.AppBuffer.Extents.{is_sized, extent}
use amazon_timestream_odbc_d.Values.YearMonths
use amazon_timestream_odbc_d.Values.DaySeconds

-- The interval types of the driver.
abbrev pub is_interval : OdbcNativeType → Bool
is_interval type = not (is_sized type) && elim type [ ai_default ↦ false | _ ↦ true ]

-- The data of a row of a buffer for intervals is put at the same address for every row, though
-- each interval, of either kind, is 28 bytes long.
pub interval_rows_overlap :
    (p : Platform) (b : ApplicationDataBuffer) (v : IntervalYearMonth) (w : IntervalDaySecond)
    (i j : ℕ)
    → is_interval b.type ≡ true
    → b.buffer ≢ 0
    → (get_data (set_element_offset b i) ≡ get_data (set_element_offset b j))
      × (extent p (put_year_month p (set_element_offset b i) v) ≡ 28)
      × (extent p (put_day_second p (set_element_offset b i) w) ≡ 28)
unfolding get_data apply_offset get_element_size set_element_offset element_size put_year_month
    put_day_second put_interval_parts
interval_rows_overlap p b v w i j h there = (ground arith, ground arith, ground arith)

abbrev pub no_months : IntervalYearMonth
no_months = record { year = pos 0; month = pos 0 }

sign_of_year_month :
    (type : OdbcNativeType) (v : IntervalYearMonth)
    → (year_month_struct type v).interval_sign ≡ YearMonths.ge v no_months
unfolding year_month_struct YearMonths.ge YearMonths.lt
sign_of_year_month type v = ground arith

abbrev pub no_time : IntervalDaySecond
no_time = record { day = pos 0; hour = pos 0; minute = pos 0; second = pos 0; fraction_ns = pos 0 }

-- The members below the days are within their units.
abbrev pub IsNormal : IntervalDaySecond → Type 0
IsNormal v = (magnitude v.hour < 24) × (magnitude v.minute < 60) × (magnitude v.second < 60)

in_seconds-parts :
    (v : IntervalDaySecond)
    → pos_part (DaySeconds.in_seconds v)
        + (neg_part v.day * 86400
            + neg_part v.hour * 3600
            + neg_part v.minute * 60
            + neg_part v.second)
      ≡ neg_part (DaySeconds.in_seconds v)
        + (pos_part v.day * 86400
            + pos_part v.hour * 3600
            + pos_part v.minute * 60
            + pos_part v.second)
unfolding DaySeconds.in_seconds
in_seconds-parts v = grind int_laws

stored_sign :
    (type : OdbcNativeType) (v : IntervalDaySecond)
    → (day_second_struct type v).interval_sign ≡ day_second_sign v
unfolding day_second_struct
stored_sign type v = ground arith

no_seconds : DaySeconds.in_seconds no_time ≡ pos 0
unfolding DaySeconds.in_seconds ◌*ℤ◌ ◌+ℤ◌
no_seconds = refl

sign_cases :
    (v : IntervalDaySecond)
    → IsNormal v
    → day_second_sign v
      ≡ not (
          ltb_ℤ (DaySeconds.in_seconds v) (pos 0)
          || (eqb_ℤ (DaySeconds.in_seconds v) (pos 0) && ltb_ℤ v.fraction_ns (pos 0)))
sign_cases v h = ground (arith, in_seconds-parts v)

sign_of_day_second :
    (type : OdbcNativeType) (v : IntervalDaySecond)
    → IsNormal v
    → (day_second_struct type v).interval_sign ≡ DaySeconds.ge v no_time
unfolding DaySeconds.ge DaySeconds.lt
sign_of_day_second type v h = stored_sign type v ∙ simp no_seconds (sign_cases v h)

-- The sign stored with an interval of either kind, for any type, is true exactly where the interval
-- is not negative; one of days has its hours, minutes and seconds within their units.
pub interval_sign-ge :
    (type : OdbcNativeType) (v : IntervalYearMonth) (w : IntervalDaySecond)
    → IsNormal w
    → ((year_month_struct type v).interval_sign ≡ YearMonths.ge v no_months)
      × ((day_second_struct type w).interval_sign ≡ DaySeconds.ge w no_time)
interval_sign-ge type v w h = (sign_of_year_month type v, sign_of_day_second type w h)
