-- ===== src/DataQuery/State.antt =====
-- The state of a `DataQuery` (src/odbc/include/timestream/odbc/query/data_query.h) and the service that
-- it calls. The AWS client is a parameter: the outcome of a query is a function of its request. The
-- request's query string is the same in every request and is left out.
use amazon_timestream_odbc_d.Base.{
  if◌then◌else◌, Text, bytes, ℕ, ◌⊎◌, Bool, true, false, Option, none, some, List, [], ◌∷◌, map,
}
use amazon_timestream_odbc_d.SqlTypes.{SqlState, s01000_general_warning}
use amazon_timestream_odbc_d.Diagnostic.Storage.{add_status_record, DiagnosticRecordStorage}
use amazon_timestream_odbc_d.Cursor.{Row, has_data, Columns, TimestreamCursor}

pub record AwsError : Type 0 where
  pub exception_name : Text
  pub message : Text

-- A `QueryRequest`: its next token, empty while it is not set, and its row limit.
pub record QueryRequest : Type 0 where
  pub next_token : Text
  pub max_rows : Option ℕ

abbrev pub fresh_request : QueryRequest
fresh_request = record { next_token = []; max_rows = none }

module _ (c : Columns) where
  -- A `QueryResult`.
  pub record Page : Type 0 where
    pub query_id : Text
    pub rows : List (Row c)
    pub next_token : Text
    pub column_info : List c.ColumnInfo

  pub data QueryOutcome : Type 0 where
    failed : AwsError → QueryOutcome
    succeeded : Page → QueryOutcome

  -- The client: `Query`, and `CancelQuery` by the id of a query, which fails with an error or gives
  -- a message.
  pub record Service : Type 0 where
    pub query : QueryRequest → QueryOutcome
    pub cancel_query : Text → AwsError ⊎ Text

  -- A worker thread that has not ended holds the request that it was started with: `request_` is
  -- passed by reference, and is written only after the thread was joined.
  pub data Thread : Type 0 where
    running : QueryRequest → Thread
    finished : Thread

  -- `sql_`, `resultMetaAvailable_`, `resultMeta_`, `request_`, `result_`, `cursor_`, the queue and the flag
  -- of `context_`, `threads_`, `hasAsyncFetch`, `rowCounter`, and the records of `diag`.
  pub record QueryState : Type 0 where
    pub sql : Text
    pub meta_available : Bool
    pub result_meta : List c.ColumnMeta
    pub request : QueryRequest
    pub result : Option Page
    pub cursor : Option (TimestreamCursor c)
    pub queue : List QueryOutcome
    pub is_closing : Bool
    pub threads : List Thread
    pub has_async_fetch : Bool
    pub row_counter : ℕ
    pub diag : DiagnosticRecordStorage

  -- The constructor, over the query text and the records of the statement.
  unfoldable pub new_query : Text → DiagnosticRecordStorage → QueryState
  new_query sql diag = record {
    sql = sql;
    meta_available = false;
    result_meta = [];
    request = fresh_request;
    result = none;
    cursor = none;
    queue = [];
    is_closing = false;
    threads = [];
    has_async_fetch = false;
    row_counter = 0;
    diag = diag;
  }

  unfoldable pub add_diagnostic : SqlState → Text → QueryState → QueryState
  unfolding add_status_record
  add_diagnostic state message s = record s { diag = add_status_record state message s.diag }

  -- `ReadColumnMetadataVector`. An empty vector clears the metadata and is not an available result.
  unfoldable pub read_column_metadata_vector : List c.ColumnInfo → QueryState → QueryState
  read_column_metadata_vector [] s = record s { result_meta = [] }
  read_column_metadata_vector (i ∷ is) s = record s {
    result_meta = map c.read_metadata (i ∷ is);
    meta_available = true;
  }

  unfoldable pub data_available : QueryState → Bool
  data_available s = elim s.cursor [ none ↦ false | some k ↦ true ]

  unfoldable pub row_number : QueryState → ℕ × QueryState
  unfolding add_diagnostic has_data
  row_number s = elim s.cursor [
    | none ↦
        (0, add_diagnostic s01000_general_warning (bytes "Cursor does not point to any data.") s)
    | some k ↦ if has_data c k then (s.row_counter, s) else (
      0,
      add_diagnostic s01000_general_warning (bytes "Cursor does not point to any data.") s,
    )
  ]
