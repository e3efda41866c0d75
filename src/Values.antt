-- ===== src/Values.antt =====
-- src/odbc/src/time.cpp, timestamp.cpp, interval_year_month.cpp and interval_day_second.cpp: the values that
-- the driver reads from a row. `GetMilliseconds` of a time is computed in 32 bits and wraps; the
-- sums of `int64_t` are modelled without overflow. `Date` is a class of the Ignite library.
pub mod Times
pub mod Timestamps
pub mod YearMonths
pub mod DaySeconds
pub mod Order
pub mod Milliseconds
pub mod Examples
use amazon_timestream_odbc_d.Base.{◌*ℤ◌, quotient, remainder, to_signed, ℤ}

-- Seconds since midnight, an `int32_t`, and nanoseconds.
pub record Time : Type 0 where
  pub seconds : ℤ
  pub fraction_ns : ℤ

-- Seconds since the epoch, an `int64_t`, and nanoseconds.
pub record Timestamp : Type 0 where
  pub seconds : ℤ
  pub fraction_ns : ℤ

pub record IntervalYearMonth : Type 0 where
  pub year : ℤ
  pub month : ℤ

pub record IntervalDaySecond : Type 0 where
  pub day : ℤ
  pub hour : ℤ
  pub minute : ℤ
  pub second : ℤ
  pub fraction_ns : ℤ

-- `Time(int64_t ms)`: both parts are narrowed to an `int32_t`.
unfoldable pub time_of_ms : ℤ → Time
time_of_ms ms = record {
  seconds = to_signed 32 (quotient ms 1000);
  fraction_ns = to_signed 32 (remainder ms 1000 *ℤ 100000);
}

-- `Timestamp(int64_t ms)`: the fraction is narrowed.
unfoldable pub timestamp_of_ms : ℤ → Timestamp
timestamp_of_ms ms = record {
  seconds = quotient ms 1000;
  fraction_ns = to_signed 32 (remainder ms 1000 *ℤ 1000000);
}
