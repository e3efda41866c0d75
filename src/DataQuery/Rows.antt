-- ===== src/DataQuery/Rows.antt =====
-- One call of `FetchNextRow`, and as many as there are rows.
use amazon_timestream_odbc_d.Base.{
  Text, ℕ, zero, suc, ◌≡◌, refl, sym, ap, ◌∙◌, ◌≢◌, inl, inr, true, false, Option, some, List, [],
  ◌∷◌, ◌++◌, append-nil,
}
use amazon_timestream_odbc_d.SqlTypes.{SqlResult}
use amazon_timestream_odbc_d.Cursor.{Row, new_cursor, increment, Columns, TimestreamCursor}
use amazon_timestream_odbc_d.Cursor.Position.{IsAligned, rest, increment-rest}
use amazon_timestream_odbc_d.DataQuery.State.{
  Page, Service, QueryState, succeeded, running, finished,
}
use amazon_timestream_odbc_d.DataQuery.Worker.{◌>>=◌}
use amazon_timestream_odbc_d.DataQuery.Fetch.{
  Bindings, read_row, take_outcome, switch_cursor, after_switch, fetch_next_row,
}
use amazon_timestream_odbc_d.DataQuery.Stream.{
  request_for, current_row, Ending, Stream, Delivering, complete, last, more, stop, refuse, on_last,
  ahead, queued,
}
use amazon_timestream_odbc_d.DataQuery.Delivery.{
  next_ahead, switch-wait, switch-more, switch-queued, next_last, switch-last, opened, fetch-more,
  fetch-switch, Fetches, fetched,
}

head_of {ℓ} : {A : Type ℓ} {x y : A} {xs ys : List A} → x ∷ xs ≡ y ∷ ys → (x ≡ y) × (xs ≡ ys)
head_of e = (cc, cc)

module _ {c : Columns} (v : Service c) (m : Option ℕ) (b : Bindings c) where
  -- The first row of a page that `SwitchCursor` brings.
  page-Fetches :
      (s s2 : QueryState c) (k : TimestreamCursor c) (p : Page c) (r : Row c)
      (rs later : List (Row c)) (e : Ending)
      → s.cursor ≡ some k
      → (increment c k).1 ≡ false
      → s.has_async_fetch ≡ true
      → p.rows ≢ []
      → r ∷ rs ≡ p.rows ++ later
      → switch_cursor v (record s { cursor = some (increment c k).0 })
        ≡ some (SqlResult.success, s2)
      → s2.cursor ≡ some (increment c (new_cursor c p.rows)).0
      → ((k1 : TimestreamCursor c)
          → s2.cursor ≡ some k1
          → IsAligned c k1
          → rs ≡ rest c k1 ++ later
          → Delivering v m s2 rs e)
      → Fetches v m b s r rs e
  unfolding after_switch
  page-Fetches s s2 k p r rs later e f stuck g full shape switched f2 d =
      let (a, (r1, e1, e2)) = opened v m p.rows full in
      let both = head_of (shape ∙ ap (λ l. l ++ later) e1) in
      let call : fetch_next_row v b s ≡ some (read_row c b s2) =
        fetch-switch v m b s k f stuck g
        ∙ ap (λ x. x >>= λ p. some (after_switch v b p)) switched in
      fetched v m b s s2 (increment c (new_cursor c p.rows)).0 r rs e call f2 a
        (e2 ∙ ap some (sym both.0)) (d (increment c (new_cursor c p.rows)).0 f2 a both.1)

  worker-switch :
      (s : QueryState c) (t : Text) (p : Page c) (o : Option (SqlResult × QueryState c))
      → s.queue ≡ []
      → s.threads ≡ running (request_for t m) ∷ []
      → v.query (request_for t m) ≡ succeeded p
      → take_outcome v (succeeded p) (record s { threads = finished ∷ [] }) ≡ o
      → switch_cursor v s ≡ o
  worker-switch s t p o q th answer taken =
      switch-wait v m s (request_for t m) q th
      ∙ ap (λ x. take_outcome v x (record s { threads = finished ∷ [] })) answer
      ∙ taken

  -- The cursor has reached the end of its page, and the worker brings the next one.
  behind :
      (s : QueryState c) (k : TimestreamCursor c) (t : Text) (r : Row c) (rs later : List (Row c))
      (e : Ending)
      → s.cursor ≡ some k
      → (increment c k).1 ≡ false
      → s.has_async_fetch ≡ true
      → s.queue ≡ []
      → s.threads ≡ running (request_for t m) ∷ []
      → s.request ≡ request_for t m
      → Stream v m t later e
      → r ∷ rs ≡ later
      → Fetches v m b s r rs e
  unfolding next_last next_ahead
  behind s k t r rs later e f stuck g q th rq (last p answer full end shape) whole =
      let s1 = record s { cursor = some (increment c k).0 } in
      let s2 = next_last v m p (record s1 { threads = finished ∷ [] }) in
      page-Fetches s s2 k p r rs [] complete f stuck g full
        (whole ∙ shape ∙ sym (append-nil p.rows))
        (worker-switch s1 t p (some (SqlResult.success, s2)) q th answer
          (switch-last v m (record s1 { threads = finished ∷ [] }) p full end))
        refl (λ k1 f1 a1 sh. on_last k1 f1 a1 refl (sh ∙ append-nil (rest c k1)) refl)
  behind s k t r rs later e f stuck g q th rq (more p later' answer full token st shape) whole =
      let s1 = record s { cursor = some (increment c k).0 } in
      page-Fetches s (next_ahead v m p s1) k p r rs later' e f stuck g full (whole ∙ shape)
        (worker-switch s1 t p (some (SqlResult.success, next_ahead v m p s1)) q th answer
          (switch-more v m s1 p full token (ap (λ x. x.max_rows) rq)))
        refl (λ k1 f1 a1 sh. ahead k1 p.next_token later' f1 a1 g q refl refl st sh)
  behind s k t r rs later e f stuck g q th rq (stop p answer empty shape) whole = cc
  behind s k t r rs later e f stuck g q th rq (refuse x answer shape) whole = cc

  pub fetch_next_row-Fetches :
      (s : QueryState c) (r : Row c) (rs : List (Row c)) (e : Ending)
      → Delivering v m s (r ∷ rs) e
      → Fetches v m b s r rs e
  unfolding next_last
  fetch_next_row-Fetches s r rs e (on_last k f a g shape x) =
      let (a', _, _, i) = increment-rest c k a in
      elim i [
        | inl (none_left, _, _) ↦ cc
        | inr (r', e1, e2, moved) ↦
            let both = head_of (shape ∙ e1) in
            fetched v m b s (record s { cursor = some (increment c k).0 }) (increment c k).0 r rs e
              (fetch-more v m b s k f moved) refl a' (e2 ∙ ap some (sym both.0))
              (on_last (increment c k).0 refl a' g both.1 x)
      ]
  fetch_next_row-Fetches s r rs e (ahead k t later f a g q th rq st shape) =
      let (a', _, _, i) = increment-rest c k a in
      elim i [
        | inr (r', e1, e2, moved) ↦
            let both = head_of (shape ∙ ap (λ l. l ++ later) e1) in
            fetched v m b s (record s { cursor = some (increment c k).0 }) (increment c k).0 r rs e
              (fetch-more v m b s k f moved) refl a' (e2 ∙ ap some (sym both.0))
              (ahead (increment c k).0 t later refl a' g q th rq st both.1)
        | inl (none_left, _, stuck) ↦
            behind s k t r rs later e f stuck g q th rq st (shape ∙ ap (λ l. l ++ later) none_left)
      ]
  fetch_next_row-Fetches s r rs e (queued k p f a g q full end shape x) =
      let (a', _, _, i) = increment-rest c k a in
      elim i [
        | inr (r', e1, e2, moved) ↦
            let both = head_of (shape ∙ ap (λ l. l ++ p.rows) e1) in
            fetched v m b s (record s { cursor = some (increment c k).0 }) (increment c k).0 r rs e
              (fetch-more v m b s k f moved) refl a' (e2 ∙ ap some (sym both.0))
              (queued (increment c k).0 p refl a' g q full end both.1 x)
        | inl (none_left, _, stuck) ↦
            let s1 = record s { cursor = some (increment c k).0 } in
            let s2 = next_last v m p (record s1 { queue = [] }) in
            page-Fetches s s2 k p r rs [] e f stuck g full
              (shape ∙ ap (λ l. l ++ p.rows) none_left ∙ sym (append-nil p.rows))
              (switch-queued v m s1 p q ∙ switch-last v m (record s1 { queue = [] }) p full end)
              refl (λ k1 f1 a1 sh. on_last k1 f1 a1 refl (sh ∙ append-nil (rest c k1)) x)
      ]

  -- As many calls of `FetchNextRow`, and the row that the cursor stands on after each.
  unfoldable pub fetch_rows :
      ℕ → Bindings c → QueryState c → Option (List (Option (Row c)) × QueryState c)
  fetch_rows zero b' s = some ([], s)
  fetch_rows (suc n) b' s = fetch_next_row v b' s >>= λ out.
      fetch_rows n out.1 out.2 >>= λ rest. some (current_row v m out.2 ∷ rest.0, rest.1)
