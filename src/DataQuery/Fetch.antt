-- ===== src/DataQuery/Fetch.antt =====
-- The fetch of rows and of single columns: `SwitchCursor`, `FetchNextRow`, `GetColumn` and
-- `ProcessConversionResult`. `none` is a call that never returns.
use amazon_timestream_odbc_d.Base.{
  ◌==◌, if◌then◌else◌, length, is_empty, pos, Text, bytes, ℕ, zero, suc, ◌+◌, false, Option, none,
  some, List, [], ◌∷◌,
}
use amazon_timestream_odbc_d.SqlTypes.{
  SqlResult, SqlState, success_with_info, s01000_general_warning, s01004_data_truncated,
  s01s01_error_in_row, s01s07_fractional_truncation, s22002_indicator_needed,
  s24000_invalid_cursor_state, shyc00_optional_feature_not_implemented,
}
use amazon_timestream_odbc_d.Diagnostic.Storage.{add_status_record_at}
use amazon_timestream_odbc_d.Cursor.{
  new_cursor, has_data, increment, read_column_to_buffer, ConversionResult, Columns,
  TimestreamCursor, varlen_data_truncated, fractional_truncated, indicator_needed,
  unsupported_conversion,
}
use amazon_timestream_odbc_d.DataQuery.Worker.{
  ◌>>=◌, wait_outcome, join_front, start_worker, set_next_token,
}
use amazon_timestream_odbc_d.DataQuery.State.{
  add_diagnostic, Page, QueryOutcome, Service, QueryState, failed, succeeded,
}

-- A map from column numbers.
module _ {ℓ} {V : Type ℓ} where
  abbrev pub find_binding : ℕ → List (ℕ × V) → Option V
  find_binding i [] = none
  find_binding i ((j, b) ∷ m) = let rest = find_binding i m in if j == i then some b else rest

  abbrev pub set_binding : ℕ → V → List (ℕ × V) → List (ℕ × V)
  set_binding i b [] = []
  set_binding i b ((j, b') ∷ m) =
      let rest = set_binding i b m in if j == i then (j, b) ∷ m else (j, b') ∷ rest

-- What is left of a loop after one round: an error ends it.
abbrev pub go_on {ℓ κ} :
    {B : Type ℓ} {S : Type κ} → SqlResult × B × S → (B → S → SqlResult × B × S) → SqlResult × B × S
go_on (SqlResult.error, m, s) continue = (SqlResult.error, m, s)
go_on (r, m, s) continue = continue m s

module _ (c : Columns) where
  abbrev warn_at : SqlState → Text → ℕ → QueryState c → QueryState c
  unfolding add_status_record_at
  warn_at state message column s = record s {
    diag = add_status_record_at state message (pos 0) (pos column) s.diag;
  }

  -- `ProcessConversionResult` at row 0.
  unfoldable pub process_conversion_result :
      ConversionResult → ℕ → QueryState c → SqlResult × QueryState c
  unfolding add_status_record_at
  process_conversion_result ConversionResult.success column s = (SqlResult.success, s)
  process_conversion_result ConversionResult.no_data column s = (SqlResult.no_data, s)
  process_conversion_result varlen_data_truncated column s = (
    success_with_info,
    warn_at s01004_data_truncated
        (bytes "Buffer is too small for the column data. Truncated from the right.") column s,
  )
  process_conversion_result fractional_truncated column s = (
    success_with_info,
    warn_at s01s07_fractional_truncation
        (bytes "Buffer is too small for the column data. Fraction truncated.") column s,
  )
  process_conversion_result indicator_needed column s = (
    success_with_info,
    warn_at s22002_indicator_needed
        (bytes "Indicator is needed but not suplied for the column buffer.") column s,
  )
  process_conversion_result unsupported_conversion column s = (
    success_with_info,
    warn_at shyc00_optional_feature_not_implemented (bytes "Data conversion is not supported.")
        column s,
  )
  process_conversion_result ConversionResult.failure column s =
      (SqlResult.error, warn_at s01s01_error_in_row (bytes "Can not retrieve row column.") column s)

  -- `app::ColumnBindingMap`: the bound columns by number.
  abbrev pub Bindings : Type 0
  Bindings = List (ℕ × c.Buffer)

  -- One round of the loop of `FetchNextRow` over a bound column.
  unfoldable pub fetch_column :
      ℕ
      → c.Buffer
      → TimestreamCursor c
      → Bindings
      → QueryState c
      → SqlResult × Bindings × QueryState c
  fetch_column i b k bindings s =
      let (r, k', b') = read_column_to_buffer c i s.result_meta k b in
      let (result, s') = process_conversion_result r i (record s { cursor = some k' }) in
      (result, set_binding i b' bindings, s')

  -- The loop of `FetchNextRow` over the columns from `i` on, with the number left.
  unfoldable pub fetch_columns :
      ℕ → ℕ → Bindings → QueryState c → SqlResult × Bindings × QueryState c
  fetch_columns zero i bindings s =
      (SqlResult.success, bindings, record s { row_counter = s.row_counter + 1 })
  fetch_columns (suc left) i bindings s = elim s.cursor [
    | none ↦ (SqlResult.error, bindings, s)
    | some k ↦ elim (find_binding i bindings) [
      | none ↦ fetch_columns left (i + 1) bindings s
      | some b ↦ go_on (fetch_column i b k bindings s) (fetch_columns left (i + 1))
    ]
  ]

  -- The part of `FetchNextRow` behind the increment. The metadata has as many columns as the loop
  -- has rounds.
  unfoldable pub read_row : Bindings → QueryState c → SqlResult × Bindings × QueryState c
  read_row bindings s = fetch_columns (length s.result_meta) 1 bindings s

  -- `GetColumn`.
  unfoldable pub get_column : ℕ → c.Buffer → QueryState c → SqlResult × c.Buffer × QueryState c
  unfolding has_data add_diagnostic
  get_column i b s = elim s.cursor [
    | none ↦ (
      SqlResult.no_data,
      b,
      add_diagnostic c s01000_general_warning (bytes "Cursor does not point to any data.") s,
    )
    | some k ↦
        if has_data c k
        then (let (r, k', b') = read_column_to_buffer c i s.result_meta k b in
            let (result, s') = process_conversion_result r i (record s { cursor = some k' }) in
            (result, b', s'))
        else (
          SqlResult.error,
          b,
          add_diagnostic c s24000_invalid_cursor_state
              (bytes "Cursor has reached end of the result set.") s,
        )
  ]

module _ {c : Columns} (v : Service c) where
  -- `SwitchCursor` behind the wait: the next page becomes the current one, and unless it is the
  -- last, a worker is started for the page that follows it.
  unfoldable pub switch_page : Page c → QueryState c → Option (SqlResult × QueryState c)
  switch_page page s0 =
      let s = record s0 { result = some page } in
      let s' = record s { cursor = some (increment c (new_cursor c page.rows)).0 } in
      if is_empty page.rows
      then some (SqlResult.no_data, s)
      else if is_empty page.next_token
      then some (SqlResult.success, record s' { has_async_fetch = false })
      else (join_front v s' >>= λ s''.
          some (SqlResult.success, start_worker v (set_next_token v page.next_token s'')))

  unfoldable pub take_outcome : QueryOutcome c → QueryState c → Option (SqlResult × QueryState c)
  take_outcome (failed e) s =
      some (SqlResult.error, record s { cursor = none; has_async_fetch = false })
  take_outcome (succeeded page) s = switch_page page s

  unfoldable pub switch_cursor : QueryState c → Option (SqlResult × QueryState c)
  switch_cursor s = wait_outcome v s >>= λ p. take_outcome p.0 p.1

  -- What `FetchNextRow` does with the result of `SwitchCursor`.
  unfoldable pub after_switch :
      Bindings c → SqlResult × QueryState c → SqlResult × Bindings c × QueryState c
  unfolding add_diagnostic
  after_switch bindings (SqlResult.success, s) = read_row c bindings s
  after_switch bindings (r, s) =
      (r, bindings, add_diagnostic c s24000_invalid_cursor_state (bytes "Invalid cursor state.") s)

  unfoldable pub fetch_next_row :
      Bindings c → QueryState c → Option (SqlResult × Bindings c × QueryState c)
  fetch_next_row bindings s = elim s.cursor [
    | none ↦ some (
      SqlResult.no_data,
      bindings,
      add_diagnostic c s01000_general_warning (bytes "Cursor does not point to any data.") s,
    )
    | some k ↦
        let (k', more) = increment c k in
        let s' = record s { cursor = some k' } in
        if more
        then some (read_row c bindings s')
        else if s'.has_async_fetch
        then (switch_cursor s' >>= λ p. some (after_switch bindings p))
        else some (SqlResult.no_data, bindings, s')
  ]
