-- ===== src/DataQuery/Ends.antt =====
-- A whole result: all its rows, and what the calls behind the last row return.
use amazon_timestream_odbc_d.Base.{
  length, Text, ℕ, ◌≡◌, refl, sym, ap, ◌∙◌, inl, inr, true, false, Option, none, some, List, [],
  ◌∷◌, ◌++◌, map,
}
use amazon_timestream_odbc_d.SqlTypes.{SqlResult}
use amazon_timestream_odbc_d.Cursor.{Row, increment, Columns, TimestreamCursor}
use amazon_timestream_odbc_d.Cursor.Position.{IsAligned, rest, increment-rest}
use amazon_timestream_odbc_d.DataQuery.State.{
  add_diagnostic, AwsError, Page, Service, QueryState, failed, succeeded, running, finished,
}
use amazon_timestream_odbc_d.DataQuery.Worker.{◌>>=◌, deliver, wait_outcome}
use amazon_timestream_odbc_d.DataQuery.Fetch.{
  Bindings, switch_page, take_outcome, switch_cursor, after_switch, fetch_next_row,
}
use amazon_timestream_odbc_d.DataQuery.Stream.{
  request_for, Ending, Stream, Delivering, complete, stopped, lost, last, more, stop, refuse,
  on_last, ahead, queued,
}
use amazon_timestream_odbc_d.DataQuery.Delivery.{switch-wait, fetch-switch, fetch-end}
use amazon_timestream_odbc_d.DataQuery.Rows.{fetch_next_row-Fetches, fetch_rows}

module _ {c : Columns} (v : Service c) (m : Option ℕ) where
  -- From any state with rows left, that many calls of `FetchNextRow` all return, and the rows that
  -- the cursor stands on after them are exactly these rows, in order; then none is left, and the
  -- ending of the stream is the same.
  pub fetch_rows-Delivering :
      (b0 b : Bindings c) (rs : List (Row c)) (s : QueryState c) (e : Ending)
      → Delivering v m s rs e
      → (s' : QueryState c) × (fetch_rows v m b0 (length rs) b s ≡ some (map some rs, s'))
        × Delivering v m s' [] e
  unfolding fetch_rows
  fetch_rows-Delivering b0 b [] s e d = (s, refl, d)
  fetch_rows-Delivering b0 b (r ∷ rs) s e d =
      let (out, call, d', here, _) = fetch_next_row-Fetches v m b s r rs e d in
      let (s', calls, d'') = fetch_rows-Delivering b0 out.1 rs out.2 e d' in
      (s', rw (call, fetch_rows) (rw (calls, here)), d'')

  switch-refuse :
      (s : QueryState c) (x : AwsError)
      → take_outcome v (failed x) s
        ≡ some (SqlResult.error, record s { cursor = none; has_async_fetch = false })
  unfolding take_outcome
  switch-refuse s x = refl

  switch-stop :
      (s : QueryState c) (p : Page c)
      → p.rows ≡ []
      → take_outcome v (succeeded p) s ≡ some (SqlResult.no_data, record s { result = some p })
  unfolding take_outcome switch_page
  switch-stop s p h = rw (h, switch_page)

  -- What the call behind the last row returns, by the ending of the stream.
  abbrev pub EndsWith : Ending → SqlResult → Type 0
  EndsWith complete r = r ≡ SqlResult.no_data
  EndsWith stopped r = r ≡ SqlResult.no_data
  EndsWith lost r = r ≡ SqlResult.error

  -- And what the calls after that one do: a complete result goes on returning AI_NO_DATA, a lost one
  -- has no cursor and no worker, and after a page without rows the next call never returns.
  abbrev pub Afterwards : Ending → QueryState c → Type 0
  Afterwards complete s = Delivering v m s [] complete
  Afterwards stopped s = (b : Bindings c) → fetch_next_row v b s ≡ none
  Afterwards lost s = (s.cursor ≡ none) × (s.has_async_fetch ≡ false)

  abbrev Ended : Bindings c → QueryState c → Ending → Type 0
  Ended b s e =
      (out : SqlResult × Bindings c × QueryState c) × (fetch_next_row v b s ≡ some out)
      × EndsWith e out.0
      × Afterwards e out.2

  append-empty : (xs ys : List (Row c)) → [] ≡ xs ++ ys → (xs ≡ []) × (ys ≡ [])
  append-empty [] ys h = (refl, sym h)
  append-empty (x ∷ xs) ys h = cc

  -- With no outcome in the queue and no worker left to bring one, the wait never ends.
  blocked :
      (b : Bindings c) (s : QueryState c) (k : TimestreamCursor c)
      → s.cursor ≡ some k
      → (increment c k).1 ≡ false
      → s.has_async_fetch ≡ true
      → s.queue ≡ []
      → s.threads ≡ finished ∷ []
      → fetch_next_row v b s ≡ none
  unfolding switch_cursor wait_outcome deliver
  blocked b s k f stuck g q th = fetch-switch v m b s k f stuck g ∙ rw (q, switch_cursor) (rw th)

  stuck_at_end :
      (k : TimestreamCursor c)
      → IsAligned c k
      → rest c k ≡ []
      → IsAligned c (increment c k).0
        × ((increment c k).1 ≡ false)
        × (rest c (increment c k).0 ≡ [])
  stuck_at_end k a h =
      let (a', _, _, i) = increment-rest c k a in
      let t : ((increment c k).1 ≡ false) × (rest c (increment c k).0 ≡ []) = elim i [
        | inl (_, r, stuck) ↦ (stuck, r)
        | inr (x, r, _, _) ↦ cc
      ] in
      (a', t.0, t.1)

  drained :
      (b : Bindings c) (s : QueryState c) (k : TimestreamCursor c) (t : Text) (later : List (Row c))
      (e : Ending)
      → s.cursor ≡ some k
      → IsAligned c k
      → rest c k ≡ []
      → s.has_async_fetch ≡ true
      → s.queue ≡ []
      → s.threads ≡ running (request_for t m) ∷ []
      → Stream v m t later e
      → later ≡ []
      → Ended b s e
  unfolding after_switch add_diagnostic
  drained b s k t later e f a none_left g q th (last p answer full end shape) empty =
      absurd (full (sym shape ∙ empty))
  drained b s k t later e f a none_left g q th (more p later' answer full token st shape) empty =
      absurd (full (append-empty p.rows later' (sym empty ∙ shape)).0)
  drained b s k t later e f a none_left g q th (stop p answer no_rows shape) empty =
      let (a', stuck, r) = stuck_at_end k a none_left in
      let s1 = record s { cursor = some (increment c k).0 } in
      let s2 = record s1 { threads = finished ∷ []; result = some p } in
      let (a'', stuck', _) = stuck_at_end (increment c k).0 a' r in
      (
        after_switch v b (SqlResult.no_data, s2),
        fetch-switch v m b s k f stuck g
            ∙ ap (λ x. x >>= λ p. some (after_switch v b p))
                (switch-wait v m s1 (request_for t m) q th
                  ∙ ap (λ o. take_outcome v o (record s1 { threads = finished ∷ [] })) answer
                  ∙ switch-stop (record s1 { threads = finished ∷ [] }) p no_rows),
        refl,
        λ b'. blocked b' _ (increment c k).0 refl stuck' g q refl,
      )
  drained b s k t later e f a none_left g q th (refuse x answer shape) empty =
      let (a', stuck, r) = stuck_at_end k a none_left in
      let s1 = record s { cursor = some (increment c k).0 } in
      let s2 = record s1 { threads = finished ∷ []; cursor = none; has_async_fetch = false } in
      (
        after_switch v b (SqlResult.error, s2),
        fetch-switch v m b s k f stuck g
            ∙ ap (λ x. x >>= λ p. some (after_switch v b p))
                (switch-wait v m s1 (request_for t m) q th
                  ∙ ap (λ o. take_outcome v o (record s1 { threads = finished ∷ [] })) answer
                  ∙ switch-refuse (record s1 { threads = finished ∷ [] }) x),
        refl,
        (refl, refl),
      )

  -- The call behind the last row returns AI_NO_DATA where the result is complete, and so do all
  -- that follow; it returns AI_ERROR where the service refused a page, and the cursor is gone. Where
  -- a page behind the first one has no rows it returns AI_NO_DATA, whatever that page's token, and
  -- then every further call waits for ever.
  pub fetch_next_row-end :
      (b : Bindings c) (s : QueryState c) (e : Ending) → Delivering v m s [] e → Ended b s e
  fetch_next_row-end b s e (on_last k f a g shape x) =
      let (a', stuck, r) = stuck_at_end k a (sym shape) in
      rw x (
        (SqlResult.no_data, b, record s { cursor = some (increment c k).0 }),
        fetch-end v m b s k f stuck g,
        refl,
        on_last (increment c k).0 refl a' g (sym r) refl,
      )
  fetch_next_row-end b s e (ahead k t later f a g q th rq st shape) =
      let (none_left, empty) = append-empty (rest c k) later shape in
      drained b s k t later e f a none_left g q th st empty
  fetch_next_row-end b s e (queued k p f a g q full end shape x) =
      absurd (full (append-empty (rest c k) p.rows shape).1)
