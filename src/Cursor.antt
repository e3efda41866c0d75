-- ===== src/Cursor.antt =====
-- src/odbc/src/timestream_cursor.cpp: a cursor over the rows of one page.
-- The iterator is an index into the rows; `columnMetadataVec_` is a reference to the metadata of the
-- query, so it is an argument here. What a column does with a value is the interface `Columns`.
pub mod Position
pub mod Discovery
use amazon_timestream_odbc_d.Base.{
  ltb, leb, ◌==◌, if◌then◌else◌, length, get_elem?, ℕ, zero, suc, ◌+◌, ◌-◌, Bool, true, false, ◌&&◌,
  ◌||◌, Option, none, some, List, [], ◌∷◌, ◌++◌,
}

-- `ConversionResult::Type` (src/odbc/include/timestream/odbc/app/application_data_buffer.h).
pub data ConversionResult : Type 0 where
  success varlen_data_truncated fractional_truncated indicator_needed no_data unsupported_conversion
        failure :
      ConversionResult

-- The parts that a cursor and a query are written over: the values and the column descriptions of
-- the service, `ColumnMeta::ReadMetadata`, and `TimestreamColumn::ReadToBuffer`.
pub record Columns : Type 1 where
  pub Datum : Type 0
  pub ColumnInfo : Type 0
  pub ColumnMeta : Type 0
  pub Buffer : Type 0
  pub read_metadata : ColumnInfo → ColumnMeta
  pub read_to_buffer : ℕ → ColumnMeta → Datum → Buffer → ConversionResult × Buffer

module _ (c : Columns) where
  open c use {Datum, ColumnMeta, Buffer, read_to_buffer}

  abbrev pub Row : Type 0
  Row = List Datum

  -- A `TimestreamColumn` is its index and its metadata.
  pub record TimestreamCursor : Type 0 where
    pub rows : List Row
    pub iterator : ℕ
    pub cur_pos : ℕ
    pub columns : List (ℕ × ColumnMeta)

  unfoldable pub new_cursor : List Row → TimestreamCursor
  new_cursor rows = record { rows = rows; iterator = 0; cur_pos = 0; columns = [] }

  unfoldable pub has_data : TimestreamCursor → Bool
  has_data k = leb k.cur_pos (length k.rows)

  unfoldable pub increment : TimestreamCursor → TimestreamCursor × Bool
  increment k =
      let moved =
        if ltb 0 k.cur_pos && ltb k.iterator (length k.rows) then k.iterator + 1 else k.iterator in
      let k' = record k { iterator = moved; cur_pos = k.cur_pos + 1 } in
      (k', leb k'.cur_pos (length k.rows))

  -- The loop of `EnsureColumnDiscovered`, with the number of rounds left. The metadata is read
  -- within its bounds, since the caller has tested the column's index.
  pub discover : ℕ → ℕ → List ColumnMeta → List (ℕ × ColumnMeta) → List (ℕ × ColumnMeta)
  discover zero index metas columns = columns
  discover (suc left) index metas columns = elim (get_elem? metas index) [
    | none ↦ columns
    | some m ↦ discover left (index + 1) metas (columns ++ (index, m) ∷ [])
  ]

  unfoldable pub ensure_column_discovered :
      ℕ → List ColumnMeta → TimestreamCursor → Bool × TimestreamCursor
  unfolding discover
  ensure_column_discovered column_idx metas k =
      let index = length k.columns in
      if ltb (length metas) column_idx || ltb column_idx 1
      then (false, k)
      else if index == length metas
      then (true, k)
      else (true, record k { columns = discover (column_idx - index) index metas k.columns })

  -- The value under the iterator. Reading past the end of the rows or of a row is undefined in the
  -- source; here it is a failure.
  unfoldable pub current_datum : ℕ → TimestreamCursor → Option Datum
  current_datum column_idx k = elim (get_elem? k.rows k.iterator) [
    | none ↦ none
    | some row ↦ get_elem? row (column_idx - 1)
  ]

  unfoldable pub read_column :
      Option (ℕ × ColumnMeta) → Option Datum → Buffer → ConversionResult × Buffer
  read_column (some (index, m)) (some datum) b = read_to_buffer index m datum b
  read_column _ _ b = (failure, b)

  unfoldable pub read_column_to_buffer :
      ℕ → List ColumnMeta → TimestreamCursor → Buffer → ConversionResult × TimestreamCursor × Buffer
  read_column_to_buffer column_idx metas k b =
      let (found, k') = ensure_column_discovered column_idx metas k in
      let (r, b') =
        read_column (get_elem? k'.columns (column_idx - 1)) (current_datum column_idx k') b in
      if found then (r, k', b') else (failure, k', b)
