-- ===== src/TimestreamColumn/Bounds.antt =====
-- A value of the service stays within the element of the buffer, and the rows of an array of
-- elements stay apart.
use amazon_timestream_odbc_d.Base.{
  if◌then◌else◌, get_elem?, ◌+ℤ◌, ◌*ℤ◌, to_signed, ℤ, pos, Text, bytes, text_eq, ℕ, ◌+◌, ◌*◌, ◌≤◌,
  ◌<◌, ◌≡◌, refl, ◌≢◌, true, Option, none, some, List, [], ◌∷◌, ◌++◌, arith,
}
use amazon_timestream_odbc_d.TypeTraits.{
  ScalarType, boolean, integer, bigint, double, date, time, timestamp, interval_day_to_second,
  interval_year_to_month, varchar, not_set, unknown,
}
use amazon_timestream_odbc_d.AppBuffer.{
  apply_offset, element_size, get_element_size, get_data, set_element_offset, ApplicationDataBuffer,
}
use amazon_timestream_odbc_d.AppBuffer.Platform.{Platform}
use amazon_timestream_odbc_d.AppBuffer.Store.{Outcome}
use amazon_timestream_odbc_d.AppBuffer.Puts.{
  put_null, put_string, put_int8, put_int32, put_int64, put_double, int, float,
}
use amazon_timestream_odbc_d.AppBuffer.Extents.{is_sized, extent, extent-with_value}
use amazon_timestream_odbc_d.AppBuffer.Bounds.{
  extent-put_date, extent-put_timestamp, extent-put_time, extent-put_num, extent-put_string,
  extent-put_year_month, extent-put_day_second, extent-put_null,
}
use amazon_timestream_odbc_d.TimestreamColumn.{
  ColumnType, tm_of, date_format, clock_format, year_month_format, day_second_format, array_text,
  enclose, succeeded, put_timestamp_numbers, put_time_numbers, put_year_month_numbers,
  put_day_second_numbers, parse_scalar_type, put_text, parse_datum, element_texts, point_texts,
  read_to_buffer, Datum, scalar, time_series, array, row, row_without_data, null_value, unset,
}
use amazon_timestream_odbc_d.TimestreamColumn.Scanning.{scan, string_to_number, space}
use amazon_timestream_odbc_d.Utility.{c_str}
use mathlib.Core.Option
use amazon_timestream_odbc_d.AppBuffer.Dates.{put_timestamp}

module _ (p : Platform) (b : ApplicationDataBuffer) (h : is_sized b.type ≡ true) where
  extent-time : (zs : List ℤ) → extent p (put_time_numbers p b zs) ≤ element_size b.type b.buflen
  extent-time [] = omega arith
  extent-time (h ∷ []) = omega arith
  extent-time (h ∷ m ∷ []) = omega arith
  extent-time (h ∷ m ∷ s ∷ []) = omega arith
  extent-time (h ∷ m ∷ s ∷ f ∷ []) =
      extent-put_time p b
        record { seconds = to_signed 32 ((h *ℤ 60 +ℤ m) *ℤ 60 +ℤ s); fraction_ns = f }
  extent-time (h ∷ m ∷ s ∷ f ∷ x ∷ xs) = omega arith

  extent-year_month :
      (zs : List ℤ) → extent p (put_year_month_numbers p b zs) ≤ element_size b.type b.buflen
  extent-year_month [] = omega arith
  extent-year_month (y ∷ []) = omega arith
  extent-year_month (y ∷ m ∷ []) = extent-put_year_month p b record { year = y; month = m } h
  extent-year_month (y ∷ m ∷ x ∷ xs) = omega arith

  extent-day_second :
      (zs : List ℤ) → extent p (put_day_second_numbers p b zs) ≤ element_size b.type b.buflen
  extent-day_second [] = omega arith
  extent-day_second (d ∷ []) = omega arith
  extent-day_second (d ∷ k ∷ []) = omega arith
  extent-day_second (d ∷ k ∷ m ∷ []) = omega arith
  extent-day_second (d ∷ k ∷ m ∷ s ∷ []) = omega arith
  extent-day_second (d ∷ k ∷ m ∷ s ∷ f ∷ []) =
      extent-put_day_second p b
        record { day = d; hour = k; minute = m; second = s; fraction_ns = f } h
  extent-day_second (d ∷ k ∷ m ∷ s ∷ f ∷ x ∷ xs) = omega arith

  extent-timestamp :
      (zs : List ℤ) → extent p (put_timestamp_numbers p b zs) ≤ element_size b.type b.buflen
  extent-timestamp zs =
      extent-with_value p (get_elem? zs 6)
        (λ f. put_timestamp p b record { seconds = p.time_gm (tm_of zs); fraction_ns = f })
        (element_size b.type b.buflen)
        (λ f. extent-put_timestamp p b record { seconds = p.time_gm (tm_of zs); fraction_ns = f })

  extent-parse_scalar_type :
      (ty : ScalarType) (s : Text)
      → extent p (parse_scalar_type p ty s b) ≤ element_size b.type b.buflen
  unfolding parse_scalar_type put_int8 put_int32 put_int64 put_double
  extent-parse_scalar_type varchar s = extent-put_string p b s h
  extent-parse_scalar_type double s =
      extent-with_value p (p.stod s) (put_double p b) (element_size b.type b.buflen)
        (λ x. extent-put_num p b (float 8 x) h)
  extent-parse_scalar_type boolean s =
      extent-put_num p b (int 1 (if text_eq s (bytes "true") then pos 1 else pos 0)) h
  extent-parse_scalar_type integer s = extent-put_num p b (int 4 (string_to_number 32 s)) h
  extent-parse_scalar_type bigint s = extent-put_num p b (int 8 (string_to_number 64 s)) h
  extent-parse_scalar_type not_set s = omega (arith, extent-put_null p b)
  extent-parse_scalar_type unknown s = omega (arith, extent-put_null p b)
  extent-parse_scalar_type timestamp s =
      extent-timestamp (scan (date_format ++ space ∷ clock_format) (c_str s))
  extent-parse_scalar_type date s =
      extent-put_date p b (p.date_seconds (p.time_gm (tm_of (scan date_format (c_str s))) *ℤ 1000))
  extent-parse_scalar_type time s = extent-time (scan clock_format (c_str s))
  extent-parse_scalar_type interval_year_to_month s =
      extent-year_month (scan (year_month_format (c_str s)) (c_str s))
  extent-parse_scalar_type interval_day_to_second s =
      extent-day_second (scan (day_second_format (c_str s)) (c_str s))
  extent-parse_scalar_type (ScalarType.other code) s = omega arith

  extent-succeeded : (o : Option Outcome) → extent p (succeeded o) ≡ extent p o
  extent-succeeded none = refl
  extent-succeeded (some o) = refl

  extent-put_text : (s : Option Text) → extent p (put_text p b s) ≤ element_size b.type b.buflen
  extent-put_text s =
      extent-with_value p s (put_string p b) (element_size b.type b.buflen)
        (λ t. extent-put_string p b t h)

  -- A value of any kind, for any type of column, that is read into a buffer of a type with a size
  -- stores no more than one element.
  pub extent-read_to_buffer :
      (ty : ColumnType) (d : Datum)
      → extent p (read_to_buffer p ty d b) ≤ element_size b.type b.buflen
  unfolding read_to_buffer parse_datum
  extent-read_to_buffer none d = omega arith
  extent-read_to_buffer (some ty) (scalar s) = extent-parse_scalar_type ty s
  extent-read_to_buffer (some ty) (time_series ps) =
      extent-put_text (Option.map (λ s. enclose 91 s 93) (point_texts p ty ps))
  extent-read_to_buffer (some ty) (array ds) =
      extent-put_text (Option.map array_text (element_texts p ty ds))
  extent-read_to_buffer (some ty) (row ds) =
      extent-put_text (Option.map (λ s. enclose 40 s 41) (element_texts p ty ds))
  extent-read_to_buffer (some ty) row_without_data = omega arith
  extent-read_to_buffer (some ty) null_value =
      omega (arith, extent-succeeded (put_null b), extent-put_null p b)
  extent-read_to_buffer (some ty) unset = omega arith

-- One element lies before the next ones.
element_before : (size i j : ℕ) → i < j → size * i + size ≤ size * j
element_before size i j h = grind arith

data_before :
    (b : ApplicationDataBuffer) (i j n : ℕ)
    → i < j
    → b.buffer ≢ 0
    → n ≤ element_size b.type b.buflen
    → get_data (set_element_offset b i) + n ≤ get_data (set_element_offset b j)
unfolding get_data apply_offset get_element_size set_element_offset
data_before b i j n lt there fits =
    ground (arith, element_before (element_size b.type b.buflen) i j lt)

-- In an array of elements of a type with a size, at an address that is not null, what a value stores
-- for one row ends before the element of any later row.
pub rows-apart :
    (p : Platform) (b : ApplicationDataBuffer) (ty : ColumnType) (d : Datum) (i j : ℕ)
    → is_sized b.type ≡ true
    → b.buffer ≢ 0
    → i < j
    → get_data (set_element_offset b i) + extent p (read_to_buffer p ty d (set_element_offset b i))
      ≤ get_data (set_element_offset b j)
unfolding set_element_offset
rows-apart p b ty d i j sized there lt =
    data_before b i j (extent p (read_to_buffer p ty d (set_element_offset b i))) lt there
      (extent-read_to_buffer p (set_element_offset b i) sized ty d)
