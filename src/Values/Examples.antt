-- ===== src/Values/Examples.antt =====
-- Values at work.
use amazon_timestream_odbc_d.Base.{
  ◌+ℤ◌, ◌*ℤ◌, to_signed, pos, negsuc, ◌%◌, ◌≡◌, refl, ◌↔◌, true, [], ◌∷◌, arith,
}
use amazon_timestream_odbc_d.Values.{time_of_ms, timestamp_of_ms, Timestamp, IntervalDaySecond}
use amazon_timestream_odbc_d.Values.Times
use amazon_timestream_odbc_d.Values.Timestamps
use amazon_timestream_odbc_d.Values.DaySeconds
use amazon_timestream_odbc_d.Values.YearMonths
use amazon_timestream_odbc_d.Values.Order.{
  nanos, comparisons, timestamp_comparisons, length_in_nanos, interval_comparisons,
}
use amazon_timestream_odbc_d.Values.Milliseconds.{
  get_milliseconds-timestamp_of_ms, get_milliseconds-time_of_ms,
}

get_milliseconds-timestamp_of_ms_example :
    Timestamps.get_milliseconds (timestamp_of_ms (negsuc 1500)) ≡ negsuc 1500
get_milliseconds-timestamp_of_ms_example = get_milliseconds-timestamp_of_ms (negsuc 1500)

get_milliseconds-time_of_ms_example :
    (Times.get_milliseconds (time_of_ms (pos 1234)) ≡ pos 1234) ↔ (1234 % 1000 ≡ 0)
get_milliseconds-time_of_ms_example = get_milliseconds-time_of_ms 1234 (omega arith)

abbrev early : Timestamp
early = record { seconds = negsuc 0; fraction_ns = pos 999999999 }

abbrev late : Timestamp
late = record { seconds = pos 0; fraction_ns = pos 0 }

timestamp_comparisons_example :
    Timestamps.eq early late
      ∷ Timestamps.ne early late
      ∷ Timestamps.lt early late
      ∷ Timestamps.le early late
      ∷ Timestamps.gt early late
      ∷ Timestamps.ge early late
      ∷ []
    ≡ comparisons (nanos (negsuc 0) (pos 999999999)) (nanos (pos 0) (pos 0))
timestamp_comparisons_example =
    timestamp_comparisons early late (refl, omega arith) (refl, omega arith)

abbrev hours : IntervalDaySecond
hours = record { day = pos 0; hour = pos 23; minute = pos 60; second = pos 0; fraction_ns = pos 1 }

abbrev day : IntervalDaySecond
day = record { day = pos 1; hour = pos 0; minute = pos 0; second = pos 0; fraction_ns = pos 1 }

interval_comparisons_example :
    DaySeconds.eq hours day
      ∷ DaySeconds.ne hours day
      ∷ DaySeconds.lt hours day
      ∷ DaySeconds.le hours day
      ∷ DaySeconds.gt hours day
      ∷ DaySeconds.ge hours day
      ∷ []
    ≡ comparisons (length_in_nanos hours) (length_in_nanos day)
interval_comparisons_example =
    interval_comparisons hours day (refl, omega arith) (refl, omega arith)

same_length : DaySeconds.eq hours day ≡ true
unfolding DaySeconds.eq DaySeconds.in_seconds ◌*ℤ◌ ◌+ℤ◌
same_length = refl

rest_times_hundred : Times.get_milliseconds (time_of_ms (pos 1234)) ≡ pos 24400
unfolding Times.get_milliseconds time_of_ms ◌*ℤ◌ ◌+ℤ◌ to_signed
rest_times_hundred = refl

year_before :
    YearMonths.gt record { year = pos 1; month = pos 0 } record { year = pos 0; month = pos 11 }
    ≡ true
unfolding YearMonths.gt
year_before = refl
