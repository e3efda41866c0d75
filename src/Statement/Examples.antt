-- ===== src/Statement/Examples.antt =====
-- A row array of three rows over a query with two rows left, on two pages.
use amazon_timestream_odbc_d.Base.{ℕ, ◌+◌, ◌≡◌, refl, none, some, List, [], ◌∷◌, arith}
use amazon_timestream_odbc_d.Cursor.{Row}
use amazon_timestream_odbc_d.DataQuery.Examples.{
  numbers, two_pages, quiet_storage, after_first, stopping, at_end, at_end-Delivering,
}
use amazon_timestream_odbc_d.Statement.{internal_fetch_row, Statement}
use amazon_timestream_odbc_d.Statement.RowArray.{internal_fetch_row_stuck}

abbrev at_offset : ℕ → ℕ → ℕ
at_offset n buffer = buffer + n

abbrev statement : Statement two_pages at_offset at_offset
statement = record {
  current_query = some after_first;
  column_bindings = (1, 0) ∷ [];
  column_bind_offset = none;
  row_array_size = 3;
  cell_offset = 7;
  rows_fetched = some 0;
  row_statuses = none;
  diag = quiet_storage;
}

abbrev left : List (Row numbers)
left = (20 ∷ []) ∷ (30 ∷ []) ∷ []

abbrev small_statement : Statement stopping at_offset at_offset
small_statement = record {
  current_query = some at_end;
  column_bindings = [];
  column_bind_offset = none;
  row_array_size = 2;
  cell_offset = 0;
  rows_fetched = none;
  row_statuses = none;
  diag = quiet_storage;
}

internal_fetch_row_stuck_example :
    internal_fetch_row stopping at_offset at_offset small_statement ≡ none
internal_fetch_row_stuck_example =
    internal_fetch_row_stuck stopping none at_offset at_offset small_statement at_end [] refl
      at_end-Delivering (omega arith)
