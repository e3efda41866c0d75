-- ===== src/AppBuffer/Extents.antt =====
-- How many bytes the operations on the application's buffer store.
use amazon_timestream_odbc_d.Base.{
  ltb, if◌then◌else◌, Bool-cases, Option-cases, length, set, take, drop, replicate, length-append,
  length-take, pos_part, Text, ℕ, zero, suc, ◌-◌, ◌*◌, ◌/◌, ◌≤◌, ◌<◌, min, ◌≡◌, refl, inl, inr,
  Bool, true, false, Option, none, some, List, [], ◌∷◌, ◌++◌, map, arith,
}
use mathlib.Core.Option
use amazon_timestream_odbc_d.TypeTraits.{
  OdbcNativeType, ai_interval_year, ai_interval_month, ai_interval_day, ai_interval_hour,
  ai_interval_minute, ai_interval_second, ai_interval_day_to_hour, ai_interval_day_to_minute,
  ai_interval_hour_to_minute, ai_interval_hour_to_second, ai_interval_minute_to_second,
  ai_interval_year_to_month, ai_interval_day_to_second, ai_default,
}
use amazon_timestream_odbc_d.Cursor.{ConversionResult}
use amazon_timestream_odbc_d.Utility.{c_str, Copied}
use amazon_timestream_odbc_d.Utility.CopyBounds.{written_fits}
use amazon_timestream_odbc_d.AppBuffer.{get_data, ApplicationDataBuffer}
use amazon_timestream_odbc_d.AppBuffer.Platform.{Platform}
use amazon_timestream_odbc_d.AppBuffer.Store.{
  through, with_value, Stored, Outcome, chars, wide, raw, number, real, numeric, date_value,
  time_value, timestamp_value, interval_value,
}
use amazon_timestream_odbc_d.AppBuffer.Strings.{
  copy_ansi, finish_copy, copy_narrowed, copy_utf8_string_to_sql_char_string, bytes_required,
  copy_rest, put_required, put_str_to_str_buffer,
}
use amazon_timestream_odbc_d.AppBuffer.Dates.{
  done, put_struct, strncpy, put_chars, wide_copy, put_wide, put_wide_date,
}
use amazon_timestream_odbc_d.AppBuffer.Puts.{little_endian}

length-replicate : (n c : ℕ) → length (replicate n c) ≡ n
length-replicate zero c = refl
length-replicate (suc n) c = omega (arith, length-replicate n c)

length-set : (s : List ℕ) (i c : ℕ) → length (set s i c) ≡ length s
length-set [] i c = refl
length-set (x ∷ s) zero c = refl
length-set (x ∷ s) (suc i) c = omega (arith, length-set s i c)

length-map : (f : ℕ → ℕ) (s : List ℕ) → length (map f s) ≡ length s
length-map f [] = refl
length-map f (x ∷ s) = omega (arith, length-map f s)

length-little_endian : (size n : ℕ) → length (little_endian size n) ≡ size
length-little_endian zero n = refl
length-little_endian (suc size) n = omega (arith, length-little_endian size (n / 256))

-- The types whose elements have a size: all but the intervals and the default type.
abbrev pub is_sized : OdbcNativeType → Bool
is_sized ai_interval_year = false
is_sized ai_interval_month = false
is_sized ai_interval_day = false
is_sized ai_interval_hour = false
is_sized ai_interval_minute = false
is_sized ai_interval_second = false
is_sized ai_interval_day_to_hour = false
is_sized ai_interval_day_to_minute = false
is_sized ai_interval_hour_to_minute = false
is_sized ai_interval_hour_to_second = false
is_sized ai_interval_minute_to_second = false
is_sized ai_interval_year_to_month = false
is_sized ai_interval_day_to_second = false
is_sized ai_default = false
is_sized _ = true

module _ (p : Platform) where
  abbrev pub stored_size : Stored → ℕ
  stored_size (chars s) = length s
  stored_size (wide s) = length s * p.wchar_size
  stored_size (raw s) = length s
  stored_size (number size z) = size
  stored_size (real size x) = size
  stored_size (numeric v) = 19
  stored_size (date_value v) = 6
  stored_size (time_value v) = 6
  stored_size (timestamp_value v) = 16
  stored_size (interval_value v) = 28

  -- The bytes that an operation stores at the address of the data.
  abbrev pub size_stored : Option Stored → ℕ
  size_stored none = 0
  size_stored (some v) = stored_size v

  abbrev pub extent : Option Outcome → ℕ
  extent none = 0
  extent (some o) = size_stored o.stored

  pub extent-with_value :
      {A : Type 0} (o : Option A) (put : A → Option Outcome) (n : ℕ)
      → ((a : A) → extent (put a) ≤ n)
      → extent (with_value o put) ≤ n
  extent-with_value none put n h = omega arith
  extent-with_value (some a) put n h = h a

  extent-through : (a n : ℕ) (v : Stored) → stored_size v ≤ n → size_stored (through a v) ≤ n
  extent-through a n v h = ground arith

  pub extent-done :
      (b : ApplicationDataBuffer) (r : ConversionResult) (v : Stored) (n m : ℕ)
      → stored_size v ≤ m
      → extent (done b r v n) ≤ m
  extent-done b r v n m h = extent-through (get_data b) m v h

  pub extent-put_struct :
      (b : ApplicationDataBuffer) (r : ConversionResult) (v : Stored) (n m : ℕ)
      → stored_size v ≤ m
      → extent (put_struct b r v n) ≤ m
  extent-put_struct b r v n m h = ground (arith, extent-done b r v n m h)

  length-strncpy : (s : Text) (n : ℕ) → length (strncpy s n) ≤ n
  length-strncpy s n = omega (arith, length-take n (s ++ replicate (n - length s) 0))

  pub extent-put_chars :
      (b : ApplicationDataBuffer) (s : Text) (n : ℕ) → extent (put_chars b s n) ≤ b.buflen
  unfolding put_chars
  extent-put_chars b s n = ground (
    arith,
    length-strncpy s n,
    length-strncpy s b.buflen,
    length-set (strncpy s b.buflen) (b.buflen - 1) 0,
  )

  wide_copy-fits :
      (b : ApplicationDataBuffer) (s : Text)
      → length (wide_copy p b s).written * p.wchar_size ≤ b.buflen
  wide_copy-fits b s = written_fits p.codecvt p.wchar_size s true b.buflen false

  pub extent-put_wide :
      (b : ApplicationDataBuffer) (s : Text) (n : ℕ) → extent (put_wide p b s n) ≤ b.buflen
  unfolding put_wide
  extent-put_wide b s n = ground (arith, wide_copy-fits b s)

  pub extent-put_wide_date :
      (b : ApplicationDataBuffer) (s : Text) (n : ℕ) → extent (put_wide_date p b s n) ≤ b.buflen
  unfolding put_wide_date
  extent-put_wide_date b s n = ground (arith, wide_copy-fits b s)

  copy_ansi-fits : (s : Text) (n : ℕ) → length (copy_ansi s n).written ≤ n
  unfolding copy_ansi
  copy_ansi-fits s n = ground (
    arith,
    length-append (take (n - 1) s) (0 ∷ []),
    length-take (n - 1) s,
    length-append s (0 ∷ []),
  )

  narrowed_written :
      (s : List ℕ) (m n : ℕ)
      → (0 < m → m < n)
      → length (if ltb 0 m then map p.narrow (take m s) ++ 0 ∷ [] else []) ≤ n
  narrowed_written s m n h = ground (
    arith,
    length-append (map p.narrow (take m s)) (0 ∷ []),
    length-map p.narrow (take m s),
    length-take m s,
  )

  copy_narrowed-fits : (s : List ℕ) (n : ℕ) → length (copy_narrowed p s n).written ≤ n
  unfolding copy_narrowed
  copy_narrowed-fits s n =
      narrowed_written s (if ltb 0 n then min (length s) (n - 1) else 0) n (λ h. ground arith)

  -- What a copy to characters, narrow or wide, stores.
  abbrev copied_size : Bool → Option Copied → ℕ
  copied_size to_wide none = 0
  copied_size to_wide (some c) = stored_size (if to_wide then wide c.written else chars c.written)

  copy_rest-fits :
      (to_wide : Bool) (s : Text) (n : ℕ) → copied_size to_wide (copy_rest p to_wide s n) ≤ n
  unfolding copy_rest copy_utf8_string_to_sql_char_string
  copy_rest-fits true s n = written_fits p.codecvt p.wchar_size s true n false
  copy_rest-fits false s n = elim (Bool-cases p.ansi_string_only) [
    | inl e ↦ simp e (copy_ansi-fits (c_str s) n)
    | inr e ↦ elim (Option-cases (p.from_bytes (c_str s))) [
      | inl f ↦ simp (e, f) (omega arith)
      | inr (w, f) ↦ simp (e, f) (copy_narrowed-fits w n)
    ]
  ]

  extent-finish :
      (b : ApplicationDataBuffer) (to_wide : Bool) (size n k : ℕ) (o : Option Copied)
      → extent (Option.map (finish_copy b to_wide size n k) o) ≡ copied_size to_wide o
  unfolding finish_copy
  extent-finish b to_wide size n k none = refl
  extent-finish b to_wide size n k (some c) = refl

  pub extent-put_required :
      (b : ApplicationDataBuffer) (to_wide : Bool) (s : Text) (size n : ℕ)
      → extent (put_required p b to_wide s size n) ≤ b.buflen
  unfolding put_required
  extent-put_required b to_wide s size n =
      let rest = drop (pos_part b.cell_offset) s in
      ground (
        arith,
        extent-finish b to_wide size n (pos_part b.cell_offset) (copy_rest p to_wide rest b.buflen),
        copy_rest-fits to_wide rest b.buflen,
      )

  pub extent-put_str :
      (b : ApplicationDataBuffer) (to_wide : Bool) (s : Text)
      → extent (put_str_to_str_buffer p b to_wide s) ≤ b.buflen
  unfolding put_str_to_str_buffer
  extent-put_str b to_wide s =
      let size = if to_wide then p.wchar_size else 1 in
      extent-with_value (bytes_required p size s) (put_required p b to_wide s size) b.buflen
        (extent-put_required b to_wide s size)
