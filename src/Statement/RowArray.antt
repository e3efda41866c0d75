-- ===== src/Statement/RowArray.antt =====
-- What a fetch of a row array returns.
use amazon_timestream_odbc_d.Base.{
  length, replicate, ℕ, zero, suc, ◌+◌, ◌<◌, ◌≡◌, refl, ap, ◌∙◌, Option, none, some, List, [], ◌∷◌,
  arith,
}
use amazon_timestream_odbc_d.SqlTypes.{SqlResult, no_data}
use mathlib.Core.Option
use amazon_timestream_odbc_d.Cursor.{Row, Columns}
use amazon_timestream_odbc_d.DataQuery.State.{Service, QueryState}
use amazon_timestream_odbc_d.DataQuery.Worker.{◌>>=◌}
use amazon_timestream_odbc_d.DataQuery.Fetch.{Bindings}
use amazon_timestream_odbc_d.DataQuery.Frame.{IsFetchResult}
use amazon_timestream_odbc_d.DataQuery.Stream.{Delivering, stopped}
use amazon_timestream_odbc_d.DataQuery.Rows.{fetch_next_row-Fetches}
use amazon_timestream_odbc_d.DataQuery.Ends.{fetch_next_row-end}
use amazon_timestream_odbc_d.Statement.{
  place, bind_offset, fetch_array, finish_array, fetch_query, internal_fetch_row, Statement,
}

module _ {c : Columns} (v : Service c) (m : Option ℕ)
    (set_element_offset set_byte_offset : ℕ → c.Buffer → c.Buffer) where
  -- The results of `n` rounds with some rows left: success or an error for each row, and AI_NO_DATA
  -- for each round behind them.
  abbrev pub RowResults : ℕ → List (Row c) → List SqlResult → Type 0
  RowResults n [] xs = xs ≡ replicate n no_data
  RowResults zero (r ∷ rs) xs = xs ≡ []
  RowResults (suc n) (r ∷ rs) [] = ⊥
  RowResults (suc n) (r ∷ rs) (x ∷ xs) = IsFetchResult c x × RowResults n rs xs

  stuck_rounds :
      (n i : ℕ) (b : Bindings c) (s : QueryState c) (rs : List (Row c))
      → Delivering v m s rs stopped
      → length rs + 1 < n
      → fetch_array v set_element_offset set_byte_offset n i b s ≡ none
  unfolding fetch_array
  stuck_rounds zero i b s rs d h = absurd (omega arith)
  stuck_rounds (suc zero) i b s [] d h = absurd (omega arith)
  stuck_rounds (suc (suc n)) i b s [] d h =
      let (out, call, _, after) =
        fetch_next_row-end v m (place v set_element_offset set_byte_offset (set_element_offset i) b)
          s stopped d in
      rw (call, fetch_array)
        (rw (after (place v set_element_offset set_byte_offset (set_element_offset (i + 1)) out.1))
          refl)
  stuck_rounds (suc n) i b s (r ∷ rs) d h =
      let (out, call, d', _, _) =
        fetch_next_row-Fetches v m
          (place v set_element_offset set_byte_offset (set_element_offset i) b) s r rs stopped d in
      rw (call, fetch_array) (rw (stuck_rounds n (i + 1) out.1 out.2 rs d' (omega arith)) refl)

  -- Where the result ends with a page without rows, a fetch of a row array that takes two rows or
  -- more beyond those that are left never returns.
  pub internal_fetch_row_stuck :
      (t : Statement v set_element_offset set_byte_offset) (s : QueryState c) (rs : List (Row c))
      → t.current_query ≡ some s
      → Delivering v m s rs stopped
      → length rs + 1 < t.row_array_size
      → internal_fetch_row v set_element_offset set_byte_offset t ≡ none
  unfolding internal_fetch_row fetch_query
  internal_fetch_row_stuck t s rs q d h =
      let b =
        place v set_element_offset set_byte_offset
          (set_byte_offset (bind_offset v set_element_offset set_byte_offset t.column_bind_offset))
          t.column_bindings in
      ap (λ o. fetch_query v set_element_offset set_byte_offset o t) q
      ∙ ap (λ o. o >>= λ out. some (finish_array v set_element_offset set_byte_offset t out))
          (stuck_rounds t.row_array_size 0 b s rs d h)
