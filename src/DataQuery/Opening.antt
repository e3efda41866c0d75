-- ===== src/DataQuery/Opening.antt =====
-- The execution of a query that was not executed before: it finds the first page with rows.
use amazon_timestream_odbc_d.Base.{
  Text, ℕ, zero, suc, ◌≤◌, ◌≡◌, refl, ap, ◌∙◌, ◌≢◌, false, Option, none, some, List, [], arith,
}
use amazon_timestream_odbc_d.Diagnostic.Storage.{DiagnosticRecordStorage}
use amazon_timestream_odbc_d.SqlTypes.{SqlResult}
use amazon_timestream_odbc_d.Cursor.{Row, Columns}
use amazon_timestream_odbc_d.DataQuery.State.{
  fresh_request, new_query, Page, Service, QueryState, succeeded,
}
use amazon_timestream_odbc_d.DataQuery.Worker.{◌>>=◌, set_next_token}
use amazon_timestream_odbc_d.DataQuery.Execute.{
  first_page, open_cursor, set_max_rows, make_request_execute, close_result, execute, page,
}
use amazon_timestream_odbc_d.DataQuery.Stream.{
  request_for, Ending, Stream, Opens, Delivering, skip, found,
}
use amazon_timestream_odbc_d.DataQuery.Delivery.{not_empty}
use amazon_timestream_odbc_d.DataQuery.OpenCursor.{open_cursor-Delivering}

module _ {c : Columns} (v : Service c) (m : Option ℕ) where
  -- No result, no worker, no outcome, and a request without a token.
  pub record IsFresh (s : QueryState c) : Type 0 where
    pub no_result : s.result ≡ none
    pub no_outcome : s.queue ≡ []
    pub no_worker : s.threads ≡ []
    pub no_async : s.has_async_fetch ≡ false
    pub first_request : s.request ≡ fresh_request

  pub new_query-IsFresh :
      (sql : Text) (diag : DiagnosticRecordStorage) → IsFresh (new_query c sql diag)
  unfolding new_query
  new_query-IsFresh sql diag = record {
    no_result = refl;
    no_outcome = refl;
    no_worker = refl;
    no_async = refl;
    first_request = refl;
  }

  -- The loop of `MakeRequestExecute` stops at the first page with rows.
  abbrev Finds : ℕ → QueryState c → List (Row c) → Ending → Type 0
  Finds fuel s rs e =
      (p : Page c) × (t : Text) × (v.query (request_for t m) ≡ succeeded p)
      × (p.rows ≢ [])
      × Stream v m t rs e
      × (first_page v fuel s
          ≡ some (page p, record s { result = some p; request = request_for t m }))

  pub first_page-full :
      (fuel : ℕ) (s : QueryState c) (p : Page c)
      → v.query s.request ≡ succeeded p
      → p.rows ≢ []
      → first_page v (suc fuel) s ≡ some (page p, record s { result = some p })
  unfolding first_page
  first_page-full fuel s p answer full = rw (answer, first_page) (rw (not_empty p.rows full))

  first_page-skip :
      (fuel : ℕ) (s : QueryState c) (p : Page c)
      → v.query s.request ≡ succeeded p
      → p.rows ≡ []
      → p.next_token ≢ []
      → first_page v (suc fuel) s
        ≡ first_page v fuel (set_next_token v p.next_token (record s { result = some p }))
  unfolding first_page
  first_page-skip fuel s p answer empty token =
      rw (answer, first_page) (rw (empty, not_empty p.next_token token))

  first_page-Finds :
      (n fuel : ℕ) (t : Text) (rs : List (Row c)) (e : Ending) (s : QueryState c)
      → Opens v m n t rs e
      → n ≤ fuel
      → s.request ≡ request_for t m
      → Finds fuel s rs e
  unfolding set_next_token
  first_page-Finds n zero t rs e s (skip p answer empty token o) h rq = absurd (omega arith)
  first_page-Finds n zero t rs e s (found p answer full st) h rq = absurd (omega arith)
  first_page-Finds n (suc fuel) t rs e s (found p answer full st) h rq = (
    p,
    t,
    answer,
    full,
    st,
    first_page-full fuel s p (ap v.query rq ∙ answer) full
        ∙ ap (λ q. some (page p, record s { result = some p; request = q })) rq,
  )
  first_page-Finds n (suc fuel) t rs e s (skip {n = k} p answer empty token o) h rq =
      let s1 = set_next_token v p.next_token (record s { result = some p }) in
      let (p', t', answer', full', st', call) =
        first_page-Finds k fuel p.next_token rs e s1 o (omega arith)
          (ap (λ q. request_for p.next_token q.max_rows) rq) in
      (
        p',
        t',
        answer',
        full',
        st',
        first_page-skip fuel s p (ap v.query rq ∙ answer) empty token ∙ call,
      )

  limited :
      (m' : Option ℕ) (s : QueryState c)
      → s.request ≡ fresh_request
      → (set_max_rows v m' s).request ≡ request_for [] m'
  unfolding set_max_rows
  limited none s rq = rq
  limited (some k) s rq = ap (λ q. request_for q.next_token (some k)) rq

  kept :
      (m' : Option ℕ) (s : QueryState c)
      → IsFresh s
      → let s0 = set_max_rows v m' s in
        (s0.queue ≡ []) × (s0.threads ≡ []) × (s0.has_async_fetch ≡ false)
  unfolding set_max_rows
  kept none s new = (new.no_outcome, new.no_worker, new.no_async)
  kept (some k) s new = (new.no_outcome, new.no_worker, new.no_async)

  -- Executing a fresh query whose service has a stream of rows returns success, on as much fuel as
  -- there are pages to ask for until one has rows, and leaves the query delivering all the rows of
  -- the stream, with its ending.
  pub execute-Delivering :
      (fuel n : ℕ) (s : QueryState c) (rs : List (Row c)) (e : Ending)
      → IsFresh s
      → Opens v m n [] rs e
      → n ≤ fuel
      → (s' : QueryState c) × (execute v fuel m s ≡ some (SqlResult.success, s'))
        × Delivering v m s' rs e
  unfolding execute make_request_execute
  execute-Delivering fuel n s rs e new o h =
      let s0 = set_max_rows v m s in
      let (q, th, g) = kept m s new in
      let (p, t, answer, full, st, call) =
        first_page-Finds n fuel [] rs e s0 o h (limited m s new.first_request) in
      let (s', opens, d) = open_cursor-Delivering v m s0 p t rs e q th g answer full st in
      (
        s',
        ap (λ r. close_result v r s >>= make_request_execute v fuel m) new.no_result
            ∙ ap (λ x. x >>= λ q. open_cursor v q.0 q.1) call
            ∙ opens,
        d,
      )
