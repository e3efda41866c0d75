-- ===== src/DataQuery/Reexecution.antt =====
-- A query that is executed again before its result was read to the end.
use amazon_timestream_odbc_d.Base.{
  if◌then◌else◌, length, is_empty, Text, ℕ, suc, ◌≡◌, refl, ap, ◌∙◌, ◌≢◌, true, Option, none, some,
  [], ◌∷◌, ◌++◌, map,
}
use amazon_timestream_odbc_d.SqlTypes.{SqlResult}
use amazon_timestream_odbc_d.Cursor.{new_cursor, Columns}
use amazon_timestream_odbc_d.DataQuery.State.{
  QueryRequest, Page, Service, QueryState, succeeded, running,
}
use amazon_timestream_odbc_d.DataQuery.Worker.{
  ◌>>=◌, async_fetch_one_page, join, join_all, internal_close,
}
use amazon_timestream_odbc_d.DataQuery.Execute.{
  open_cursor, set_max_rows, make_request_execute, close_result, execute,
}
use amazon_timestream_odbc_d.DataQuery.Stream.{request_for, Delivering, complete, queued}
use amazon_timestream_odbc_d.Cursor.Position.{new_cursor-IsAligned}
use amazon_timestream_odbc_d.DataQuery.Fetch.{Bindings, fetch_next_row}
use amazon_timestream_odbc_d.DataQuery.Rows.{fetch_rows}
use amazon_timestream_odbc_d.DataQuery.Ends.{fetch_rows-Delivering, fetch_next_row-end}
use amazon_timestream_odbc_d.DataQuery.OpenCursor.{make_request_fetch-AtPage, open-last}
use amazon_timestream_odbc_d.DataQuery.Opening.{first_page-full}

module _ {c : Columns} (v : Service c) (m : Option ℕ) where
  -- The state that `InternalClose` leaves where a worker was still to deliver its page.
  abbrev pub closed : QueryState c → QueryRequest → QueryState c
  closed s r = record s {
    is_closing = true;
    queue = v.query r ∷ [];
    threads = [];
    result = none;
    cursor = none;
  }

  -- Closing a query with one worker at work and an empty queue returns, and leaves the outcome of
  -- that worker in the queue, and the request and the flag of the asynchronous fetch as they were.
  pub internal_close-closed :
      (s : QueryState c) (r : QueryRequest)
      → s.queue ≡ []
      → s.threads ≡ running r ∷ []
      → internal_close v s ≡ some (closed s r)
  unfolding internal_close join_all join async_fetch_one_page
  internal_close-closed s r q th =
      ap
        (λ ts. join_all v ts (record s { is_closing = true }) >>= λ s'.
          some (record s' { result = none; cursor = none }))
        th
      ∙ ap
          (λ e.
            (if e
              then some (record s { is_closing = true; queue = v.query r ∷ [] })
              else some (record s { is_closing = true }))
            >>= join_all v []
            >>= λ s'. some (record s' { result = none; cursor = none }))
          (ap is_empty q)

  same_limit :
      (m' : Option ℕ) (s : QueryState c) (t : Text)
      → s.request ≡ request_for t m'
      → (set_max_rows v m' s).request ≡ request_for t m'
  unfolding set_max_rows
  same_limit none s t rq = rq
  same_limit (some k) s t rq = ap (λ q. request_for q.next_token (some k)) rq

  same_queue :
      (m' : Option ℕ) (s : QueryState c)
      → let s' = set_max_rows v m' s in
        (s'.queue ≡ s.queue) × (s'.has_async_fetch ≡ s.has_async_fetch)
  unfolding set_max_rows
  same_queue none s = (refl, refl)
  same_queue (some k) s = (refl, refl)

  -- The execution behind a page that is not read to its end opens the page of its worker, and the
  -- outcome of that worker stays in the queue.
  execute-AtPage :
      (fuel : ℕ) (s : QueryState c) (p0 p : Page c) (t : Text)
      → s.result ≡ some p0
      → s.queue ≡ []
      → s.threads ≡ running (request_for t m) ∷ []
      → s.request ≡ request_for t m
      → s.has_async_fetch ≡ true
      → v.query (request_for t m) ≡ succeeded p
      → p.rows ≢ []
      → p.next_token ≡ []
      → (s' : QueryState c) × (execute v (suc fuel) m s ≡ some (SqlResult.success, s'))
        × (s'.cursor ≡ some (new_cursor c p.rows))
        × (s'.has_async_fetch ≡ true)
        × (s'.queue ≡ succeeded p ∷ [])
  unfolding execute make_request_execute close_result
  execute-AtPage fuel s p0 p t f q th rq g answer full end =
      let s0 = closed s (request_for t m) in
      let s1 = set_max_rows v m s0 in
      let s2 = record s1 { result = some p } in
      let (q', g') = same_queue m s0 in
      let (s', call, at) =
        make_request_fetch-AtPage v m (record s2 { cursor = some (new_cursor c p.rows) }) p refl
          full in
      (
        s',
        ap (λ r. close_result v r s >>= make_request_execute v (suc fuel) m) f
            ∙ ap (λ x. x >>= make_request_execute v (suc fuel) m)
                (internal_close-closed s (request_for t m) q th)
            ∙ ap (λ x. x >>= λ o. open_cursor v o.0 o.1)
                (first_page-full v m fuel s1 p (ap v.query (same_limit m s0 t rq) ∙ answer) full)
            ∙ open-last v m s2 p end
            ∙ ap some call,
        at.cursor,
        at.async ∙ g' ∙ g,
        at.queue ∙ q' ∙ ap (λ o. o ∷ []) answer,
      )

  -- A query that is executed again while its worker fetches the last page does not start over: the
  -- execution succeeds, but the fetches behind it deliver the rows of that last page, each of them
  -- returning, and then the same rows once more; the fetch behind these returns AI_NO_DATA.
  pub execute_resumes :
      (fuel : ℕ) (b : Bindings c) (s : QueryState c) (p0 p : Page c) (t : Text)
      → s.result ≡ some p0
      → s.queue ≡ []
      → s.threads ≡ running (request_for t m) ∷ []
      → s.request ≡ request_for t m
      → s.has_async_fetch ≡ true
      → v.query (request_for t m) ≡ succeeded p
      → p.rows ≢ []
      → p.next_token ≡ []
      → (s1 : QueryState c) × (s2 : QueryState c) × (out : SqlResult × Bindings c × QueryState c)
        × (execute v (suc fuel) m s ≡ some (SqlResult.success, s1))
        × (fetch_rows v m b (length (p.rows ++ p.rows)) b s1
            ≡ some (map some (p.rows ++ p.rows), s2))
        × (fetch_next_row v b s2 ≡ some out)
        × (out.0 ≡ SqlResult.no_data)
  unfolding new_cursor
  execute_resumes fuel b s p0 p t f q th rq g answer full end =
      let (s1, run, k, g1, q1) = execute-AtPage fuel s p0 p t f q th rq g answer full end in
      let waiting : Delivering v m s1 (p.rows ++ p.rows) complete =
        queued (new_cursor c p.rows) p k (new_cursor-IsAligned c p.rows) g1 q1 full end refl refl in
      let (s2, calls, d) = fetch_rows-Delivering v m b b (p.rows ++ p.rows) s1 complete waiting in
      let (out, call, ends, _) = fetch_next_row-end v m b s2 complete d in
      (s1, s2, out, run, calls, call, ends)
