-- ===== src/DataQuery/Frame.antt =====
-- Reading a row leaves the position of the cursor and all that concerns the pages alone.
use amazon_timestream_odbc_d.Base.{
  Option-cases, length, ℕ, zero, suc, ◌+◌, ◌≡◌, refl, sym, subst, ◌∙◌, ◌⊎◌, inl, inr, Option, none,
  some, List, arith,
}
use amazon_timestream_odbc_d.SqlTypes.{SqlResult}
use amazon_timestream_odbc_d.Cursor.{
  ensure_column_discovered, read_column_to_buffer, ConversionResult, Columns, TimestreamCursor,
}
use amazon_timestream_odbc_d.DataQuery.State.{QueryState}
use amazon_timestream_odbc_d.DataQuery.Fetch.{
  find_binding, go_on, process_conversion_result, Bindings, fetch_column, fetch_columns, read_row,
}

module _ (c : Columns) where
  -- Two cursors at one position: they may differ in the columns that they have discovered.
  abbrev pub SamePlace : Option (TimestreamCursor c) → Option (TimestreamCursor c) → Type 0
  SamePlace none none = Unit {0}
  SamePlace none (some k) = ⊥
  SamePlace (some k) none = ⊥
  SamePlace (some k) (some k') =
      (k'.rows ≡ k.rows) × (k'.iterator ≡ k.iterator) × (k'.cur_pos ≡ k.cur_pos)

  pub record SamePages (s s' : QueryState c) : Type 0 where
    pub place : SamePlace s.cursor s'.cursor
    pub async : s'.has_async_fetch ≡ s.has_async_fetch
    pub queue : s'.queue ≡ s.queue
    pub threads : s'.threads ≡ s.threads
    pub request : s'.request ≡ s.request

  SamePlace-refl : (k : Option (TimestreamCursor c)) → SamePlace k k
  SamePlace-refl none = tt
  SamePlace-refl (some k) = (refl, refl, refl)

  SamePlace-trans :
      (a b d : Option (TimestreamCursor c)) → SamePlace a b → SamePlace b d → SamePlace a d
  SamePlace-trans none none d h k = k
  SamePlace-trans none (some b) d h k = absurd h
  SamePlace-trans (some a) none d h k = absurd h
  SamePlace-trans (some a) (some b) none h k = k
  SamePlace-trans (some a) (some b) (some d) h k = ground arith

  SamePages-refl : (s : QueryState c) → SamePages s s
  SamePages-refl s = record {
    place = SamePlace-refl s.cursor;
    async = refl;
    queue = refl;
    threads = refl;
    request = refl;
  }

  SamePages-trans : (s t u : QueryState c) → SamePages s t → SamePages t u → SamePages s u
  SamePages-trans s t u h k = record {
    place = SamePlace-trans s.cursor t.cursor u.cursor h.place k.place;
    async = k.async ∙ h.async;
    queue = k.queue ∙ h.queue;
    threads = k.threads ∙ h.threads;
    request = k.request ∙ h.request;
  }

  process-SamePages :
      (r : ConversionResult) (i : ℕ) (s : QueryState c)
      → SamePages s (process_conversion_result c r i s).1
  unfolding process_conversion_result
  process-SamePages ConversionResult.success i s = SamePages-refl s
  process-SamePages _ i s = record {
    place = SamePlace-refl s.cursor;
    async = refl;
    queue = refl;
    threads = refl;
    request = refl;
  }

  ensure-place :
      (i : ℕ) (metas : List c.ColumnMeta) (k : TimestreamCursor c)
      → SamePlace (some k) (some (ensure_column_discovered c i metas k).1)
  unfolding ensure_column_discovered
  ensure-place i metas k = ground arith

  read_column-place :
      (i : ℕ) (metas : List c.ColumnMeta) (k : TimestreamCursor c) (b : c.Buffer)
      → (read_column_to_buffer c i metas k b).1 ≡ (ensure_column_discovered c i metas k).1
  unfolding read_column_to_buffer
  read_column-place i metas k b = ground arith

  moved-SamePages :
      (s : QueryState c) (k k' : TimestreamCursor c)
      → s.cursor ≡ some k
      → SamePlace (some k) (some k')
      → SamePages s (record s { cursor = some k' })
  moved-SamePages s k k' e h = record {
    place = subst (λ o. SamePlace o (some k')) (sym e) h;
    async = refl;
    queue = refl;
    threads = refl;
    request = refl;
  }

  fetch_column-SamePages :
      (i : ℕ) (b : c.Buffer) (k : TimestreamCursor c) (m : Bindings c) (s : QueryState c)
      → s.cursor ≡ some k
      → SamePages s (fetch_column c i b k m s).2
  unfolding fetch_column
  fetch_column-SamePages i b k m s e =
      let r = read_column_to_buffer c i s.result_meta k b in
      let place : SamePlace (some k) (some r.1) =
        subst (λ k'. SamePlace (some k) (some k')) (sym (read_column-place i s.result_meta k b))
          (ensure-place i s.result_meta k) in
      SamePages-trans s (record s { cursor = some r.1 }) _ (moved-SamePages s k r.1 e place)
        (process-SamePages r.0 i (record s { cursor = some r.1 }))

  -- `FetchNextRow` ends with success or an error, whatever the columns report.
  abbrev pub IsFetchResult : SqlResult → Type 0
  IsFetchResult r = (r ≡ SqlResult.success) ⊎ (r ≡ SqlResult.error)

  abbrev Kept : QueryState c → SqlResult × Bindings c × QueryState c → Type 0
  Kept s o = SamePages s o.2 × IsFetchResult o.0

  go_on-Kept :
      (s : QueryState c) (o : SqlResult × Bindings c × QueryState c)
      (continue : Bindings c → QueryState c → SqlResult × Bindings c × QueryState c)
      → SamePages s o.2
      → ((m : Bindings c) (s' : QueryState c) → SamePages s s' → Kept s (continue m s'))
      → Kept s (go_on o continue)
  go_on-Kept s (SqlResult.error, m, s') continue h k = (h, inr refl)
  go_on-Kept s (_, m, s') continue h k = k m s' h

  fetch_columns-Kept :
      (left i : ℕ) (m : Bindings c) (s0 s : QueryState c)
      → SamePages s0 s
      → Kept s0 (fetch_columns c left i m s)
  unfolding fetch_columns
  fetch_columns-Kept zero i m s0 s h = (
    SamePages-trans s0 s _ h (record {
      place = SamePlace-refl s.cursor;
      async = refl;
      queue = refl;
      threads = refl;
      request = refl;
    }),
    inl refl,
  )
  fetch_columns-Kept (suc left) i m s0 s h = elim (Option-cases s.cursor) [
    | inl e ↦ rw (e, fetch_columns) (h, inr refl)
    | inr (k, e) ↦ elim (Option-cases (find_binding i m)) [
      | inl f ↦ rw (e, f, fetch_columns) (fetch_columns-Kept left (i + 1) m s0 s h)
      | inr (b, f) ↦
          rw (e, f, fetch_columns)
            (go_on-Kept s0 (fetch_column c i b k m s) (fetch_columns c left (i + 1))
              (SamePages-trans s0 s (fetch_column c i b k m s).2 h
                (fetch_column-SamePages i b k m s e))
              (λ m' s' h'. fetch_columns-Kept left (i + 1) m' s0 s' h'))
    ]
  ]

  pub read_row-SamePages : (m : Bindings c) (s : QueryState c) → SamePages s (read_row c m s).2
  unfolding read_row
  read_row-SamePages m s = (fetch_columns-Kept (length s.result_meta) 1 m s s (SamePages-refl s)).0

  pub read_row-IsFetchResult :
      (m : Bindings c) (s : QueryState c) → IsFetchResult (read_row c m s).0
  unfolding read_row
  read_row-IsFetchResult m s =
      (fetch_columns-Kept (length s.result_meta) 1 m s s (SamePages-refl s)).1
