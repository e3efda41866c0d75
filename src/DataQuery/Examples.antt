-- ===== src/DataQuery/Examples.antt =====
-- A service with two pages behind one page without rows, and the theorems at it.
use amazon_timestream_odbc_d.Base.{
  ◌==◌, if◌then◌else◌, get_elem?, pos, Text, ℕ, ◌≤◌, ◌<◌, ◌≡◌, refl, ◌⊎◌, inr, true, false, none,
  some, List, [], ◌∷◌, map, arith,
}
use amazon_timestream_odbc_d.SqlTypes.{SqlResult}
use amazon_timestream_odbc_d.Diagnostic.Storage.{new_storage, DiagnosticRecordStorage}
use amazon_timestream_odbc_d.Cursor.{
  Row, new_cursor, increment, ensure_column_discovered, ConversionResult, Columns, TimestreamCursor,
}
use amazon_timestream_odbc_d.Cursor.Position.{IsAligned, rest, increment-rest}
use amazon_timestream_odbc_d.Cursor.Discovery.{ensure_column_discovered-IsDiscovered, IsDiscovered}
use amazon_timestream_odbc_d.DataQuery.State.{
  new_query, read_column_metadata_vector, Page, QueryOutcome, Service, QueryState, succeeded,
  running,
}
use amazon_timestream_odbc_d.DataQuery.Worker.{
  ◌>>=◌, join, deliver, wait_outcome, join_front, start_worker, set_next_token,
}
use amazon_timestream_odbc_d.DataQuery.Fetch.{
  Bindings, fetch_columns, read_row, switch_page, take_outcome, switch_cursor, after_switch,
  fetch_next_row,
}
use amazon_timestream_odbc_d.DataQuery.Execute.{
  first_page, fetch_from, make_request_fetch, open_cursor, set_max_rows, make_request_execute,
  close_result, execute,
}
use amazon_timestream_odbc_d.DataQuery.Stream.{
  request_for, Covers, Stream, Opens, Delivering, complete, stopped, last, more, stop, skip, found,
  ahead,
}
use amazon_timestream_odbc_d.DataQuery.Rows.{fetch_rows}
use amazon_timestream_odbc_d.DataQuery.Ends.{fetch_next_row-end}
use amazon_timestream_odbc_d.DataQuery.Result.{query_delivers}
use amazon_timestream_odbc_d.DataQuery.Reexecution.{execute_resumes}

-- Columns of numbers, which a buffer takes over.
abbrev pub numbers : Columns
numbers = record {
  Datum = ℕ;
  ColumnInfo = ℕ;
  ColumnMeta = ℕ;
  Buffer = ℕ;
  read_metadata = λ i. i;
  read_to_buffer = λ i meta d b. (ConversionResult.success, d);
}

abbrev pub empty_page : Page numbers
empty_page = record { query_id = []; rows = []; next_token = 1 ∷ []; column_info = 5 ∷ [] }

abbrev pub first_rows : Page numbers
first_rows = record {
  query_id = [];
  rows = (10 ∷ []) ∷ (20 ∷ []) ∷ [];
  next_token = 2 ∷ [];
  column_info = 5 ∷ [];
}

abbrev pub last_rows : Page numbers
last_rows = record { query_id = []; rows = (30 ∷ []) ∷ []; next_token = []; column_info = 5 ∷ [] }

abbrev pub answer : Text → QueryOutcome numbers
answer [] = succeeded empty_page
answer (t ∷ ts) = if t == 1 then succeeded first_rows else succeeded last_rows

abbrev pub two_pages : Service numbers
two_pages = record { query = λ r. answer r.next_token; cancel_query = λ id. inr [] }

abbrev all_rows : List (Row numbers)
all_rows = (10 ∷ []) ∷ (20 ∷ []) ∷ (30 ∷ []) ∷ []

pub last-Stream : Stream two_pages none (2 ∷ []) ((30 ∷ []) ∷ []) complete
last-Stream = last last_rows refl (λ e. cc) refl refl

rows_open : Opens two_pages none 2 [] all_rows complete
rows_open =
    skip empty_page refl refl (λ e. cc)
      (found first_rows refl (λ e. cc)
        (more first_rows ((30 ∷ []) ∷ []) refl (λ e. cc) (λ e. cc) last-Stream refl))

query_delivers_example :
    (s1 : QueryState numbers) × (s2 : QueryState numbers) × (out : SqlResult
      × Bindings numbers
      × QueryState numbers)
    × (execute two_pages 2 none (new_query numbers [] new_storage) ≡ some (SqlResult.success, s1))
    × (fetch_rows two_pages none ((1, 0) ∷ []) 3 ((1, 0) ∷ []) s1 ≡ some (map some all_rows, s2))
    × (fetch_next_row two_pages ((1, 0) ∷ []) s2 ≡ some out)
    × (out.0 ≡ SqlResult.no_data)
    × Covers two_pages none [] all_rows complete
query_delivers_example =
    query_delivers two_pages none [] new_storage ((1, 0) ∷ []) 2 2 all_rows complete rows_open
      (omega arith)

abbrev pub quiet_storage : DiagnosticRecordStorage
quiet_storage = record {
  row_count = pos 0;
  dynamic_function = [];
  dynamic_function_code = pos 0;
  result = SqlResult.success;
  rows_affected = pos 0;
  status_records = [];
}

-- The state on the first row of the first page, with the worker at the last page.
abbrev pub on_first : TimestreamCursor numbers
on_first = record { rows = first_rows.rows; iterator = 0; cur_pos = 1; columns = [] }

abbrev pub after_first : QueryState numbers
after_first = record {
  sql = [];
  meta_available = true;
  result_meta = 5 ∷ [];
  request = request_for (2 ∷ []) none;
  result = some first_rows;
  cursor = some on_first;
  queue = [];
  is_closing = false;
  threads = running (request_for (2 ∷ []) none) ∷ [];
  has_async_fetch = true;
  row_counter = 1;
  diag = quiet_storage;
}

pub after_first-Delivering :
    Delivering two_pages none after_first ((20 ∷ []) ∷ (30 ∷ []) ∷ []) complete
after_first-Delivering =
    ahead on_first (2 ∷ []) ((30 ∷ []) ∷ []) refl (omega arith) refl refl refl refl last-Stream refl

-- A service whose second page has no rows.
abbrev pub stopping : Service numbers
stopping = record { query = λ r. succeeded empty_page; cancel_query = λ id. inr [] }

abbrev pub on_second : TimestreamCursor numbers
on_second = record { rows = first_rows.rows; iterator = 1; cur_pos = 2; columns = [] }

abbrev pub at_end : QueryState numbers
at_end = record after_first { cursor = some on_second }

pub at_end-Delivering : Delivering stopping none at_end [] stopped
at_end-Delivering =
    ahead on_second (2 ∷ []) [] refl (omega arith) refl refl refl refl
      (stop empty_page refl refl refl) refl

fetch_next_row-end_example :
    (out : SqlResult × Bindings numbers × QueryState numbers) × (fetch_next_row stopping [] at_end
      ≡ some out)
    × (out.0 ≡ SqlResult.no_data)
    × ((b : Bindings numbers) → fetch_next_row stopping b out.2 ≡ none)
fetch_next_row-end_example = fetch_next_row-end stopping none [] at_end stopped at_end-Delivering

execute_resumes_example :
    (s1 : QueryState numbers) × (s2 : QueryState numbers) × (out : SqlResult
      × Bindings numbers
      × QueryState numbers)
    × (execute two_pages 1 none after_first ≡ some (SqlResult.success, s1))
    × (fetch_rows two_pages none [] 2 [] s1 ≡ some (some (30 ∷ []) ∷ some (30 ∷ []) ∷ [], s2))
    × (fetch_next_row two_pages [] s2 ≡ some out)
    × (out.0 ≡ SqlResult.no_data)
execute_resumes_example =
    execute_resumes two_pages none 0 [] after_first first_rows last_rows (2 ∷ []) refl refl refl
      refl refl refl (λ e. cc) refl

increment-rest_example :
    let (k', moved) = increment numbers on_first in
    IsAligned numbers k'
    × (k'.rows ≡ on_first.rows)
    × (k'.columns ≡ [])
    × (((rest numbers on_first ≡ []) × (rest numbers k' ≡ []) × (moved ≡ false))
        ⊎ ((r : Row numbers) × (rest numbers on_first ≡ r ∷ rest numbers k')
            × (get_elem? k'.rows k'.iterator ≡ some r)
            × (moved ≡ true)))
increment-rest_example = increment-rest numbers on_first (omega arith)

ensure_column_discovered_example :
    let (known, k') = ensure_column_discovered numbers 1 (5 ∷ []) on_first in
    IsDiscovered numbers (5 ∷ []) k'
    × (k'.rows ≡ on_first.rows)
    × (k'.iterator ≡ 0)
    × (k'.cur_pos ≡ 1)
    × (((known ≡ true) × (1 ≤ 1) × (1 ≤ 1) × (get_elem? k'.columns 0 ≡ some (0, 5)))
        ⊎ ((known ≡ false) × ((◌≡◌ {A = ℕ} 1 0) ⊎ (1 < 1)) × (k' ≡ on_first)))
ensure_column_discovered_example =
    ensure_column_discovered-IsDiscovered numbers 1 (5 ∷ []) on_first
      (record { within = omega arith; first = refl })

-- A run of the model on the two pages.
run_rows :
    (execute two_pages 2 none (new_query numbers [] quiet_storage) >>= λ p.
    fetch_rows two_pages none [] 3 [] p.1 >>= λ q. some q.0)
    ≡ some (map some all_rows)
unfolding execute close_result make_request_execute first_page set_next_token open_cursor fetch_from
    make_request_fetch start_worker new_query new_cursor set_max_rows fetch_rows fetch_next_row
    increment read_row fetch_columns read_column_metadata_vector switch_cursor wait_outcome deliver
    take_outcome switch_page after_switch join_front join
run_rows = refl
