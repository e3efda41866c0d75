-- ===== src/AppBuffer/Store.antt =====
-- What an operation of src/odbc/src/app/application_data_buffer.cpp does: its result, what it stores at the
-- address of the data and at that of the length, and the buffer after it. An operation that has no
-- defined behaviour, or that an exception of the C++ library leaves, gives `none`.
use amazon_timestream_odbc_d.Base.{◌==◌, if◌then◌else◌, ℤ, ℕ, Bool, Option, none, some, List}
use amazon_timestream_odbc_d.Cursor.{ConversionResult}
use amazon_timestream_odbc_d.AppBuffer.{ApplicationDataBuffer}

-- `SQL_NUMERIC_STRUCT`, with its value from the lowest byte.
pub record Numeric : Type 0 where
  pub precision : ℕ
  pub scale : ℕ
  pub sign : ℕ
  pub val : List ℕ

-- `SQL_DATE_STRUCT`, `SQL_TIME_STRUCT`, `SQL_TIMESTAMP_STRUCT`.
pub record DateStruct : Type 0 where
  pub year : ℤ
  pub month : ℤ
  pub day : ℤ

pub record TimeStruct : Type 0 where
  pub hour : ℤ
  pub minute : ℤ
  pub second : ℤ

pub record TimestampStruct : Type 0 where
  pub date : DateStruct
  pub time : TimeStruct
  pub fraction : ℤ

-- `SQLINTERVAL`.
pub data IntervalType : Type 0 where
  sql_is_year sql_is_month sql_is_day sql_is_hour sql_is_minute sql_is_second sql_is_day_to_hour
        sql_is_day_to_minute sql_is_hour_to_minute sql_is_hour_to_second sql_is_minute_to_second
        sql_is_year_to_month sql_is_day_to_second :
      IntervalType

-- The members of `SQL_INTERVAL_STRUCT` that are stored; `none` is one that is left as it was.
pub record IntervalStruct : Type 0 where
  pub interval_type : Option IntervalType
  pub interval_sign : Bool
  pub year : Option ℕ
  pub month : Option ℕ
  pub day : Option ℕ
  pub hour : Option ℕ
  pub minute : Option ℕ
  pub second : Option ℕ
  pub fraction : Option ℕ

-- `chars` are bytes, `wide` characters of `SQLWCHAR`, `number` and `real` a C number of so many bytes.
pub data Stored : Type 0 where
  chars : List ℕ → Stored
  wide : List ℕ → Stored
  raw : List ℕ → Stored
  number : ℕ → ℤ → Stored
  real : ℕ → ℕ → Stored
  numeric : Numeric → Stored
  date_value : DateStruct → Stored
  time_value : TimeStruct → Stored
  timestamp_value : TimestampStruct → Stored
  interval_value : IntervalStruct → Stored

pub record Outcome : Type 0 where
  pub result : ConversionResult
  pub stored : Option Stored
  pub length_stored : Option ℤ
  pub after : ApplicationDataBuffer

-- A store through a pointer that may be null.
abbrev pub through : {A : Type 0} → ℕ → A → Option A
through p a = if p == 0 then none else some a

-- The operation on a value that a step before it may fail to give.
abbrev pub with_value : {A : Type 0} → Option A → (A → Option Outcome) → Option Outcome
with_value none put = none
with_value (some a) put = put a
