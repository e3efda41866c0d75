-- ===== src/DataQuery/Execute.antt =====
-- The execution of a query: `Execute`, `Cancel`, `Close`, `GetMeta`, `MakeRequestExecute`,
-- `MakeRequestFetch` and `MakeRequestResultsetMeta`. The loop of `MakeRequestExecute` over empty
-- pages runs on fuel; `none` is a call that does not return, or not on that fuel.
use amazon_timestream_odbc_d.Base.{
  if◌then◌else◌, is_empty, Text, bytes, text_eq, ℕ, zero, suc, ◌⊎◌, inl, inr, Bool, true, false,
  not, Option, none, some, List, [], ◌∷◌, ◌++◌,
}
use amazon_timestream_odbc_d.SqlTypes.{SqlResult, shy000_general_error, shy010_sequence_error}
use amazon_timestream_odbc_d.Cursor.{new_cursor, Columns}
use amazon_timestream_odbc_d.DataQuery.State.{
  fresh_request, add_diagnostic, read_column_metadata_vector, AwsError, Page, Service, QueryState,
  failed, succeeded,
}
use amazon_timestream_odbc_d.DataQuery.Worker.{◌>>=◌, internal_close, start_worker, set_next_token}

-- The character '"'.
abbrev quote : ℕ
quote = 34

-- How the loop over the first pages ends.
pub data FirstPage (c : Columns) : Type 0 where
  refused : FirstPage c
  no_rows : FirstPage c
  page : Page c → FirstPage c

module _ {c : Columns} (v : Service c) where
  unfoldable pub first_page : ℕ → QueryState c → Option (FirstPage c × QueryState c)
  unfolding set_next_token
  first_page zero s = none
  first_page (suc fuel) s = elim (v.query s.request) [
    | failed e ↦ some (refused, s)
    | succeeded p ↦
        let s' = record s { result = some p } in
        let again = first_page fuel (set_next_token v p.next_token s') in
        if is_empty p.rows
        then (if is_empty p.next_token then some (no_rows, s') else again)
        else some (page p, s')
  ]

  -- `MakeRequestFetch`: the metadata is read on the first execution only.
  unfoldable pub fetch_from : Option (Page c) → QueryState c → SqlResult × QueryState c
  unfolding add_diagnostic
  fetch_from none s = (
    SqlResult.error,
    add_diagnostic c shy010_sequence_error (bytes "result_ is a null pointer") s,
  )
  fetch_from (some p) s =
      let s' = if s.meta_available then s else read_column_metadata_vector c p.column_info s in
      if is_empty p.rows
      then (SqlResult.no_data, s')
      else (SqlResult.success, record s' { cursor = some (new_cursor c p.rows) })

  unfoldable pub make_request_fetch : QueryState c → SqlResult × QueryState c
  unfolding fetch_from
  make_request_fetch s = fetch_from s.result s

  -- `MakeRequestExecute` behind its loop.
  unfoldable pub open_cursor : FirstPage c → QueryState c → Option (SqlResult × QueryState c)
  unfolding make_request_fetch internal_close set_next_token start_worker new_cursor add_diagnostic
  open_cursor refused s = do
    s' ← internal_close v (
        add_diagnostic c shy000_general_error
          (bytes "AWS API Failure: Failed to execute query " ++ quote ∷ s.sql ++ quote ∷ []) s)
    some (SqlResult.error, s')
  open_cursor no_rows s = some (SqlResult.no_data, s)
  open_cursor (page p) s =
      let s' = record s { cursor = some (new_cursor c p.rows) } in
      let ahead = record (start_worker v (set_next_token v p.next_token s')) {
        has_async_fetch = true;
      } in
      some (make_request_fetch (if is_empty p.next_token then s' else ahead))

  -- `max_rows` is the row limit of the connection's configuration, where it has one.
  unfoldable pub set_max_rows : Option ℕ → QueryState c → QueryState c
  set_max_rows none s = s
  set_max_rows (some n) s = record s {
    request = record { next_token = s.request.next_token; max_rows = some n };
  }

  unfoldable pub make_request_execute :
      ℕ → Option ℕ → QueryState c → Option (SqlResult × QueryState c)
  unfolding first_page open_cursor set_max_rows
  make_request_execute fuel max_rows s =
      first_page fuel (set_max_rows max_rows s) >>= λ p. open_cursor p.0 p.1

  -- `if (result_.get()) InternalClose()`.
  unfoldable pub close_result : Option (Page c) → QueryState c → Option (QueryState c)
  unfolding internal_close
  close_result none s = some s
  close_result (some p) s = internal_close v s

  unfoldable pub execute : ℕ → Option ℕ → QueryState c → Option (SqlResult × QueryState c)
  unfolding close_result
  execute fuel max_rows s = close_result s.result s >>= make_request_execute fuel max_rows

  pub close : QueryState c → Option (SqlResult × QueryState c)
  unfolding internal_close
  close s = do s' ← internal_close v s; some (SqlResult.success, s')

  -- The answer to `CancelQuery`: a `ValidationException` says that the query has ended already.
  cancel_refused : AwsError ⊎ Text → Bool
  cancel_refused (inl e) = not (text_eq e.exception_name (bytes "ValidationException"))
  cancel_refused (inr message) = false

  -- The message of a refused cancellation.
  cancel_message : Text → AwsError ⊎ Text → Text
  cancel_message id (inl e) = bytes "Query ID: " ++ id ++ bytes " can't cancel." ++ e.message
  cancel_message id (inr message) = []

  unfoldable pub cancel : QueryState c → Option (SqlResult × QueryState c)
  unfolding close cancel_refused cancel_message add_diagnostic
  cancel s =
      if s.has_async_fetch
      then elim s.result [
        | none ↦ some (
          SqlResult.error,
          add_diagnostic c shy000_general_error (bytes "query is not executed") s,
        )
        | some p ↦
            if cancel_refused (v.cancel_query p.query_id)
            then some (
              SqlResult.error,
              add_diagnostic c shy000_general_error
                  (cancel_message p.query_id (v.cancel_query p.query_id)) s,
            )
            else close s
      ]
      else close s

  pub make_request_resultset_meta : QueryState c → Option (SqlResult × QueryState c)
  unfolding internal_close read_column_metadata_vector add_diagnostic
  make_request_resultset_meta s = elim (v.query fresh_request) [
    | failed e ↦ do
      s' ← internal_close v (
          add_diagnostic c shy000_general_error
            (bytes "AWS API ERROR: "
              ++ e.exception_name
              ++ bytes ": "
              ++ e.message
              ++ bytes " for query "
              ++ s.sql)
            s)
      some (SqlResult.error, s')
    | succeeded p ↦ some (SqlResult.success, read_column_metadata_vector c p.column_info s)
  ]

  -- The metadata, where it is available or the service gives it.
  unfoldable pub get_meta : QueryState c → Option (Option (List c.ColumnMeta) × QueryState c)
  unfolding make_request_resultset_meta
  get_meta s =
      if s.meta_available
      then some (some s.result_meta, s)
      else (make_request_resultset_meta s >>= λ p.
          let s' = p.1 in some (if s'.meta_available then some s'.result_meta else none, s'))
