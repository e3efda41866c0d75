-- ===== src/DataQuery/OpenCursor.antt =====
-- How `MakeRequestExecute` goes on from the first page with rows: the cursor over it, and the worker
-- for the page behind it.
use amazon_timestream_odbc_d.Base.{
  if◌then◌else◌, Text, ℕ, ◌≡◌, refl, sym, ap, subst, ◌∙◌, ◌≢◌, Bool, true, false, Option, some,
  List, [], ◌∷◌, ◌++◌,
}
use amazon_timestream_odbc_d.SqlTypes.{SqlResult, no_data}
use amazon_timestream_odbc_d.Cursor.{Row, new_cursor, Columns}
use amazon_timestream_odbc_d.Cursor.Position.{new_cursor-IsAligned}
use amazon_timestream_odbc_d.DataQuery.State.{
  read_column_metadata_vector, Page, Service, QueryState, succeeded, running,
}
use amazon_timestream_odbc_d.DataQuery.Worker.{start_worker, set_next_token}
use amazon_timestream_odbc_d.DataQuery.Execute.{fetch_from, make_request_fetch, open_cursor, page}
use amazon_timestream_odbc_d.DataQuery.Stream.{
  request_for, Ending, Stream, Delivering, last, more, stop, refuse, on_last, ahead,
}
use amazon_timestream_odbc_d.DataQuery.Delivery.{not_empty}

module _ {c : Columns} (v : Service c) (m : Option ℕ) where
  same_page :
      (p q : Page c) (t : Text)
      → v.query (request_for t m) ≡ succeeded p
      → v.query (request_for t m) ≡ succeeded q
      → p ≡ q
  same_page p q t a b = cc

  -- A cursor before the first row of a page, the rest of the state unchanged.
  pub record AtPage (p : Page c) (s s' : QueryState c) : Type 0 where
    pub cursor : s'.cursor ≡ some (new_cursor c p.rows)
    pub async : s'.has_async_fetch ≡ s.has_async_fetch
    pub queue : s'.queue ≡ s.queue
    pub threads : s'.threads ≡ s.threads
    pub request : s'.request ≡ s.request

  read_metadata-AtPage :
      (p : Page c) (s : QueryState c) (is : List c.ColumnInfo)
      → let s' = read_column_metadata_vector c is s in
        AtPage p s (record s' { cursor = some (new_cursor c p.rows) })
  unfolding read_column_metadata_vector
  read_metadata-AtPage p s [] = record {
    cursor = refl;
    async = refl;
    queue = refl;
    threads = refl;
    request = refl;
  }
  read_metadata-AtPage p s (i ∷ is) = record {
    cursor = refl;
    async = refl;
    queue = refl;
    threads = refl;
    request = refl;
  }

  seen-AtPage :
      (p : Page c) (s : QueryState c) (seen : Bool)
      → let s' = if seen then s else read_column_metadata_vector c p.column_info s in
        AtPage p s (record s' { cursor = some (new_cursor c p.rows) })
  seen-AtPage p s true = record {
    cursor = refl;
    async = refl;
    queue = refl;
    threads = refl;
    request = refl;
  }
  seen-AtPage p s false = read_metadata-AtPage p s p.column_info

  pub make_request_fetch-AtPage :
      (s : QueryState c) (p : Page c)
      → s.result ≡ some p
      → p.rows ≢ []
      → (s' : QueryState c) × (make_request_fetch v s ≡ (SqlResult.success, s')) × AtPage p s s'
  unfolding make_request_fetch
  make_request_fetch-AtPage s p f full =
      let s1 = if s.meta_available then s else read_column_metadata_vector c p.column_info s in
      (
        record s1 { cursor = some (new_cursor c p.rows) },
        ap (λ r. fetch_from v r s) f
            ∙ ap
                (λ x.
                  if x
                  then (no_data, s1)
                  else (SqlResult.success, record s1 { cursor = some (new_cursor c p.rows) }))
                (not_empty p.rows full),
        seen-AtPage p s s.meta_available,
      )

  pub open-last :
      (s : QueryState c) (p : Page c)
      → p.next_token ≡ []
      → open_cursor v (page p) s
        ≡ some (make_request_fetch v (record s { cursor = some (new_cursor c p.rows) }))
  unfolding open_cursor
  open-last s p end = rw end

  open-ahead :
      (s : QueryState c) (p : Page c)
      → p.next_token ≢ []
      → open_cursor v (page p) s
        ≡ some (
            make_request_fetch v
              (record (start_worker v (
                set_next_token v p.next_token (record s { cursor = some (new_cursor c p.rows) }))) {
                  has_async_fetch = true;
                }))
  unfolding open_cursor
  open-ahead s p token = rw (not_empty p.next_token token)

  -- `MakeRequestExecute` behind its loop opens a cursor on the page, and starts the worker that
  -- fetches the page behind it.
  pub open_cursor-Delivering :
      (s : QueryState c) (p : Page c) (t : Text) (rs : List (Row c)) (e : Ending)
      → s.queue ≡ []
      → s.threads ≡ []
      → s.has_async_fetch ≡ false
      → v.query (request_for t m) ≡ succeeded p
      → p.rows ≢ []
      → Stream v m t rs e
      → let s1 = record s { result = some p; request = request_for t m } in
        (s' : QueryState c) × (open_cursor v (page p) s1 ≡ some (SqlResult.success, s'))
        × Delivering v m s' rs e
  unfolding set_next_token start_worker new_cursor
  open_cursor-Delivering s p t rs e q th g answer full (last p' answer' full' end shape) =
      let s1 = record s { result = some p; request = request_for t m } in
      let same = same_page p p' t answer answer' in
      let s2 = record s1 { cursor = some (new_cursor c p.rows) } in
      let (s', call, at) = make_request_fetch-AtPage s2 p refl full in
      (
        s',
        open-last s1 p (ap (λ x. x.next_token) same ∙ end) ∙ ap some call,
        on_last (new_cursor c p.rows) at.cursor (new_cursor-IsAligned c p.rows) (at.async ∙ g)
            (shape ∙ ap (λ x. x.rows) (sym same)) refl,
      )
  open_cursor-Delivering s p t rs e q th g answer full
        (more p' later answer' full' token st shape) =
      let s1 = record s { result = some p; request = request_for t m } in
      let same = same_page p p' t answer answer' in
      let token' : p.next_token ≢ [] = λ z. token (ap (λ x. x.next_token) (sym same) ∙ z) in
      let s2 =
        record (start_worker v
          (set_next_token v p.next_token (record s1 { cursor = some (new_cursor c p.rows) }))) {
            has_async_fetch = true;
          } in
      let (s', call, at) = make_request_fetch-AtPage s2 p refl full in
      (
        s',
        open-ahead s1 p token' ∙ ap some call,
        ahead (new_cursor c p.rows) p.next_token later at.cursor (new_cursor-IsAligned c p.rows)
            at.async (at.queue ∙ q)
            (at.threads ∙ ap (λ ts. ts ++ running (request_for p.next_token m) ∷ []) th) at.request
            (subst (λ x. Stream v m x.next_token later e) (sym same) st)
            (shape ∙ ap (λ x. x.rows ++ later) (sym same)),
      )
  open_cursor-Delivering s p t rs e q th g answer full (stop p' answer' empty shape) =
      absurd (full (ap (λ x. x.rows) (same_page p p' t answer answer') ∙ empty))
  open_cursor-Delivering s p t rs e q th g answer full (refuse x answer' shape) = cc
