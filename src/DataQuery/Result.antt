-- ===== src/DataQuery/Result.antt =====
-- A query from its execution to its last row.
use amazon_timestream_odbc_d.Base.{
  length, Text, ℕ, ◌≤◌, ◌≡◌, sym, ap, ◌≢◌, Option, some, List, [], ◌++◌, map,
}
use amazon_timestream_odbc_d.SqlTypes.{SqlResult}
use amazon_timestream_odbc_d.Diagnostic.Storage.{DiagnosticRecordStorage}
use amazon_timestream_odbc_d.Cursor.{Row, Columns}
use amazon_timestream_odbc_d.DataQuery.State.{new_query, Page, Service, QueryState, succeeded}
use amazon_timestream_odbc_d.DataQuery.Execute.{execute}
use amazon_timestream_odbc_d.DataQuery.Fetch.{Bindings, fetch_next_row}
use amazon_timestream_odbc_d.DataQuery.Stream.{
  request_for, Covers, Ending, Stream, Opens, complete, stopped, lost, last, more, stop, refuse,
  skip, found, final, next, no_page, behind_page,
}
use amazon_timestream_odbc_d.DataQuery.Rows.{fetch_rows}
use amazon_timestream_odbc_d.DataQuery.Ends.{fetch_rows-Delivering, EndsWith, fetch_next_row-end}
use amazon_timestream_odbc_d.DataQuery.Opening.{new_query-IsFresh, execute-Delivering}

module _ {c : Columns} (v : Service c) (m : Option ℕ) where
  -- One page more before the rows that are covered.
  behind-Covers :
      (t : Text) (p : Page c) (rs later : List (Row c)) (e : Ending)
      → v.query (request_for t m) ≡ succeeded p
      → p.next_token ≢ []
      → rs ≡ p.rows ++ later
      → Covers v m p.next_token later e
      → Covers v m t rs e
  behind-Covers t p rs later complete answer token shape h = next p later answer token h shape
  behind-Covers t p rs later stopped answer token shape (u, q, b, stops, empty) =
      (u, q, behind_page p later answer token b shape, stops, empty)
  behind-Covers t p rs later lost answer token shape (u, x, b, refuses) =
      (u, x, behind_page p later answer token b shape, refuses)

  Stream-Covers :
      (t : Text) (rs : List (Row c)) (e : Ending) → Stream v m t rs e → Covers v m t rs e
  Stream-Covers t rs e (last p answer full end shape) = final p answer end shape
  Stream-Covers t rs e (more p later answer full token st shape) =
      behind-Covers t p rs later e answer token shape (Stream-Covers p.next_token later e st)
  Stream-Covers t rs e (stop p answer empty shape) = (t, p, no_page shape, answer, empty)
  Stream-Covers t rs e (refuse x answer shape) = (t, x, no_page shape, answer)

  Opens-Covers :
      (n : ℕ) (t : Text) (rs : List (Row c)) (e : Ending) → Opens v m n t rs e → Covers v m t rs e
  Opens-Covers n t rs e (skip {n = k} p answer empty token o) =
      behind-Covers t p rs rs e answer token (ap (λ l. l ++ rs) (sym empty))
        (Opens-Covers k p.next_token rs e o)
  Opens-Covers n t rs e (found p answer full st) = Stream-Covers t rs e st

  -- A new query over a service with a stream of rows executes with success; then as many fetches as
  -- there are rows all return and stand on exactly these rows, in order, whatever pages they came
  -- in; and the fetch behind them returns AI_NO_DATA, or AI_ERROR where a page was refused. The rows
  -- are all those of the service where the stream is complete. Where a page behind one with rows has
  -- none, they are only those before that page: the rows behind it, if its token leads to any, are
  -- not delivered, and the result ends as if it were complete. Where a page is refused, they are
  -- those before that page.
  pub query_delivers :
      (sql : Text) (diag : DiagnosticRecordStorage) (b : Bindings c) (fuel n : ℕ)
      (rs : List (Row c)) (e : Ending)
      → Opens v m n [] rs e
      → n ≤ fuel
      → (s1 : QueryState c) × (s2 : QueryState c) × (out : SqlResult × Bindings c × QueryState c)
        × (execute v fuel m (new_query c sql diag) ≡ some (SqlResult.success, s1))
        × (fetch_rows v m b (length rs) b s1 ≡ some (map some rs, s2))
        × (fetch_next_row v b s2 ≡ some out)
        × EndsWith v m e out.0
        × Covers v m [] rs e
  query_delivers sql diag b fuel n rs e o h =
      let (s1, run, d) =
        execute-Delivering v m fuel n (new_query c sql diag) rs e (new_query-IsFresh v m sql diag) o
          h in
      let (s2, calls, d') = fetch_rows-Delivering v m b b rs s1 e d in
      let (out, call, ends, _) = fetch_next_row-end v m b s2 e d' in
      (s1, s2, out, run, calls, call, ends, Opens-Covers n [] rs e o)
