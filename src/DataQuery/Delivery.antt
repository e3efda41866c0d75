-- ===== src/DataQuery/Delivery.antt =====
-- A query delivers its stream: every row once, in order, and then the ending of the stream.
use amazon_timestream_odbc_d.Base.{
  get_elem?, is_empty, ℕ, ◌≡◌, refl, sym, ap, subst, ◌∙◌, ◌≢◌, inl, inr, true, false, Option, none,
  some, List, [], ◌∷◌, ◌++◌, arith,
}
use amazon_timestream_odbc_d.SqlTypes.{SqlResult}
use amazon_timestream_odbc_d.Cursor.{Row, new_cursor, increment, Columns, TimestreamCursor}
use amazon_timestream_odbc_d.Cursor.Position.{IsAligned, rest, new_cursor-IsAligned, increment-rest}
use amazon_timestream_odbc_d.DataQuery.State.{
  QueryRequest, Page, Service, QueryState, succeeded, running, finished,
}
use amazon_timestream_odbc_d.DataQuery.Worker.{
  ◌>>=◌, join, deliver, wait_outcome, join_front, start_worker, set_next_token,
}
use amazon_timestream_odbc_d.DataQuery.Fetch.{
  Bindings, read_row, switch_page, take_outcome, switch_cursor, after_switch, fetch_next_row,
}
use amazon_timestream_odbc_d.DataQuery.Stream.{
  request_for, current_row, Ending, Delivering, on_last, ahead, queued,
}
use amazon_timestream_odbc_d.DataQuery.Frame.{
  SamePlace, IsFetchResult, read_row-SamePages, read_row-IsFetchResult, SamePages,
}

pub not_empty {ℓ} : {A : Type ℓ} (xs : List A) → xs ≢ [] → is_empty xs ≡ false
not_empty [] h = absurd (h refl)
not_empty (x ∷ xs) h = refl

module _ {c : Columns} where
  place_of :
      (k : TimestreamCursor c) (o : Option (TimestreamCursor c))
      → SamePlace c (some k) o
      → IsAligned c k
      → (k' : TimestreamCursor c) × (o ≡ some k')
        × IsAligned c k'
        × (rest c k' ≡ rest c k)
        × (get_elem? k'.rows k'.iterator ≡ get_elem? k.rows k.iterator)
  place_of k none h a = absurd h
  place_of k (some k') h a = (k', refl, ground arith, ground arith, ground arith)

  place_of_state :
      (s s' : QueryState c) (k : TimestreamCursor c)
      → SamePages c s s'
      → s.cursor ≡ some k
      → SamePlace c (some k) s'.cursor
  place_of_state s s' k h e = subst (λ o. SamePlace c o s'.cursor) e h.place

module _ {c : Columns} (v : Service c) (m : Option ℕ) where
  pub Delivering-SamePages :
      (s s' : QueryState c) (rs : List (Row c)) {e : Ending}
      → SamePages c s s'
      → Delivering v m s rs e
      → Delivering v m s' rs e
  Delivering-SamePages s s' rs h (on_last k f a g r x) =
      let (k', f', a', r', _) = place_of k s'.cursor (place_of_state s s' k h f) a in
      on_last k' f' a' (h.async ∙ g) (r ∙ sym r') x
  Delivering-SamePages s s' rs h (ahead k t later f a g q th rq st r) =
      let (k', f', a', r', _) = place_of k s'.cursor (place_of_state s s' k h f) a in
      ahead k' t later f' a' (h.async ∙ g) (h.queue ∙ q) (h.threads ∙ th) (h.request ∙ rq) st
        (r ∙ ap (λ l. l ++ later) (sym r'))
  Delivering-SamePages s s' rs h (queued k p f a g q full end r x) =
      let (k', f', a', r', _) = place_of k s'.cursor (place_of_state s s' k h f) a in
      queued k' p f' a' (h.async ∙ g) (h.queue ∙ q) full end (r ∙ ap (λ l. l ++ p.rows) (sym r')) x

  current_row-SamePages :
      (s s' : QueryState c) (k : TimestreamCursor c)
      → IsAligned c k
      → SamePages c s s'
      → s.cursor ≡ some k
      → current_row v m s' ≡ get_elem? k.rows k.iterator
  current_row-SamePages s s' k a h f =
      let (k', f', _, _, r) = place_of k s'.cursor (place_of_state s s' k h f) a in rw f' r

  -- The state behind `SwitchCursor`, where the page has rows and a token.
  unfoldable pub next_ahead : Page c → QueryState c → QueryState c
  next_ahead p s = record s {
    result = some p;
    cursor = some (increment c (new_cursor c p.rows)).0;
    threads = running (request_for p.next_token m) ∷ [];
    request = request_for p.next_token m;
  }

  pub switch-wait :
      (s : QueryState c) (r : QueryRequest)
      → s.queue ≡ []
      → s.threads ≡ running r ∷ []
      → switch_cursor v s ≡ take_outcome v (v.query r) (record s { threads = finished ∷ [] })
  unfolding switch_cursor wait_outcome deliver
  switch-wait s r q th = rw (q, switch_cursor) (rw th)

  pub switch-more :
      (s : QueryState c) (p : Page c)
      → p.rows ≢ []
      → p.next_token ≢ []
      → s.request.max_rows ≡ m
      → take_outcome v (succeeded p) (record s { threads = finished ∷ [] })
        ≡ some (SqlResult.success, next_ahead p s)
  unfolding take_outcome switch_page join_front join set_next_token start_worker next_ahead
  switch-more s p h k e = rw (not_empty p.rows h, not_empty p.next_token k, switch_page) (rw e)

  pub switch-queued :
      (s : QueryState c) (p : Page c)
      → s.queue ≡ succeeded p ∷ []
      → switch_cursor v s ≡ take_outcome v (succeeded p) (record s { queue = [] })
  unfolding switch_cursor wait_outcome
  switch-queued s p q = rw (q, switch_cursor)

  -- The state behind `SwitchCursor`, where the page is the last one.
  unfoldable pub next_last : Page c → QueryState c → QueryState c
  next_last p s = record s {
    result = some p;
    cursor = some (increment c (new_cursor c p.rows)).0;
    has_async_fetch = false;
  }

  pub switch-last :
      (s : QueryState c) (p : Page c)
      → p.rows ≢ []
      → p.next_token ≡ []
      → take_outcome v (succeeded p) s ≡ some (SqlResult.success, next_last p s)
  unfolding take_outcome switch_page next_last
  switch-last s p h k = rw (not_empty p.rows h, k, switch_page)

  pub opened :
      (rows : List (Row c))
      → rows ≢ []
      → let k = (increment c (new_cursor c rows)).0 in
        IsAligned c k
        × ((r : Row c) × (rows ≡ r ∷ rest c k) × (get_elem? k.rows k.iterator ≡ some r))
  unfolding new_cursor
  opened rows h =
      let (a, _, _, s) = increment-rest c (new_cursor c rows) (new_cursor-IsAligned c rows) in
      (a, elim s [ inl (e, _, _) ↦ absurd (h e) | inr (r, e, f, _) ↦ (r, e, f) ])

  module _ (b : Bindings c) where
    pub fetch-more :
        (s : QueryState c) (k : TimestreamCursor c)
        → s.cursor ≡ some k
        → (increment c k).1 ≡ true
        → fetch_next_row v b s ≡ some (read_row c b (record s { cursor = some (increment c k).0 }))
    unfolding fetch_next_row
    fetch-more s k f moved = rw (f, fetch_next_row) (rw moved)

    pub fetch-switch :
        (s : QueryState c) (k : TimestreamCursor c)
        → s.cursor ≡ some k
        → (increment c k).1 ≡ false
        → s.has_async_fetch ≡ true
        → fetch_next_row v b s ≡ (
            switch_cursor v (record s { cursor = some (increment c k).0 }) >>= λ p.
            some (after_switch v b p))
    unfolding fetch_next_row
    fetch-switch s k f moved g = rw (f, fetch_next_row) (rw (moved, g))

    pub fetch-end :
        (s : QueryState c) (k : TimestreamCursor c)
        → s.cursor ≡ some k
        → (increment c k).1 ≡ false
        → s.has_async_fetch ≡ false
        → fetch_next_row v b s
          ≡ some (SqlResult.no_data, b, record s { cursor = some (increment c k).0 })
    unfolding fetch_next_row
    fetch-end s k f moved g = rw (f, fetch_next_row) (rw (moved, g))

    -- A row was fetched: the call returned, what is left is delivered later, and the cursor stands
    -- on the row.
    abbrev pub Fetches : QueryState c → Row c → List (Row c) → Ending → Type 0
    Fetches s r rs e =
        (out : SqlResult × Bindings c × QueryState c) × (fetch_next_row v b s ≡ some out)
        × Delivering v m out.2 rs e
        × (current_row v m out.2 ≡ some r)
        × IsFetchResult c out.0

    pub fetched :
        (s s1 : QueryState c) (k : TimestreamCursor c) (r : Row c) (rs : List (Row c)) (e : Ending)
        → fetch_next_row v b s ≡ some (read_row c b s1)
        → s1.cursor ≡ some k
        → IsAligned c k
        → get_elem? k.rows k.iterator ≡ some r
        → Delivering v m s1 rs e
        → Fetches s r rs e
    fetched s s1 k r rs e call f a here d =
        let same = read_row-SamePages c b s1 in
        (
          read_row c b s1,
          call,
          Delivering-SamePages s1 (read_row c b s1).2 rs same d,
          current_row-SamePages s1 (read_row c b s1).2 k a same f ∙ here,
          read_row-IsFetchResult c b s1,
        )
