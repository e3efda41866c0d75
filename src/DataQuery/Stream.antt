-- ===== src/DataQuery/Stream.antt =====
-- What a query has to deliver: the rows of the pages of the service from a token on, and how the
-- chain of pages ends. This description knows nothing of workers, queues and cursors.
use amazon_timestream_odbc_d.Base.{
  get_elem?, Text, ℕ, suc, ◌≡◌, ◌≢◌, true, false, Option, none, some, List, [], ◌∷◌, ◌++◌,
}
use amazon_timestream_odbc_d.Cursor.{Row, Columns, TimestreamCursor}
use amazon_timestream_odbc_d.Cursor.Position.{IsAligned, rest}
use amazon_timestream_odbc_d.DataQuery.State.{
  AwsError, QueryRequest, Page, Service, QueryState, failed, succeeded, running,
}

-- `complete`: the last page has no token. `stopped`: a page behind the first one has no rows; the
-- driver stops there whatever the token of that page, so a stream has no row behind it. `lost`: the
-- service refused a page.
pub data Ending : Type 0 where
  complete stopped lost : Ending

abbrev pub request_for : Text → Option ℕ → QueryRequest
request_for t m = record { next_token = t; max_rows = m }

module _ {c : Columns} (v : Service c) (m : Option ℕ) where
  pub data Stream : Text → List (Row c) → Ending → Type 0 where
    last :
        {t : Text} {rs : List (Row c)} (p : Page c)
        → v.query (request_for t m) ≡ succeeded p
        → p.rows ≢ []
        → p.next_token ≡ []
        → rs ≡ p.rows
        → Stream t rs complete
    more :
        {t : Text} {rs : List (Row c)} {e : Ending} (p : Page c) (later : List (Row c))
        → v.query (request_for t m) ≡ succeeded p
        → p.rows ≢ []
        → p.next_token ≢ []
        → Stream p.next_token later e
        → rs ≡ p.rows ++ later
        → Stream t rs e
    stop :
        {t : Text} {rs : List (Row c)} (p : Page c)
        → v.query (request_for t m) ≡ succeeded p
        → p.rows ≡ []
        → rs ≡ []
        → Stream t rs stopped
    refuse :
        {t : Text} {rs : List (Row c)} (x : AwsError)
        → v.query (request_for t m) ≡ failed x
        → rs ≡ []
        → Stream t rs lost

  -- What an execution that starts with a token has to deliver, and how many pages it asks for until
  -- one has rows: pages without rows are passed over while they have a token.
  pub data Opens : ℕ → Text → List (Row c) → Ending → Type 0 where
    skip :
        {n : ℕ} {t : Text} {rs : List (Row c)} {e : Ending} (p : Page c)
        → v.query (request_for t m) ≡ succeeded p
        → p.rows ≡ []
        → p.next_token ≢ []
        → Opens n p.next_token rs e
        → Opens (suc n) t rs e
    found :
        {n : ℕ} {t : Text} {rs : List (Row c)} {e : Ending} (p : Page c)
        → v.query (request_for t m) ≡ succeeded p
        → p.rows ≢ []
        → Stream t rs e
        → Opens (suc n) t rs e

  -- All the rows of the pages from a token on, to the page without a token, whether pages on the way
  -- have rows or not: what the service holds, without regard to what the driver asks for.
  pub data Holds : Text → List (Row c) → Type 0 where
    final :
        {t : Text} {rs : List (Row c)} (p : Page c)
        → v.query (request_for t m) ≡ succeeded p
        → p.next_token ≡ []
        → rs ≡ p.rows
        → Holds t rs
    next :
        {t : Text} {rs : List (Row c)} (p : Page c) (later : List (Row c))
        → v.query (request_for t m) ≡ succeeded p
        → p.next_token ≢ []
        → Holds p.next_token later
        → rs ≡ p.rows ++ later
        → Holds t rs

  -- The pages from a token to another one have these rows.
  pub data Before : Text → List (Row c) → Text → Type 0 where
    no_page : {t : Text} {rs : List (Row c)} → rs ≡ [] → Before t rs t
    behind_page :
        {t u : Text} {rs : List (Row c)} (p : Page c) (later : List (Row c))
        → v.query (request_for t m) ≡ succeeded p
        → p.next_token ≢ []
        → Before p.next_token later u
        → rs ≡ p.rows ++ later
        → Before t rs u

  -- Which of the rows of the service `rs` are: all of them, those before a page without rows, or
  -- those before a page that the service refuses.
  abbrev pub Covers : Text → List (Row c) → Ending → Type 0
  Covers t rs complete = Holds t rs
  Covers t rs stopped =
      (u : Text) × (p : Page c) × Before t rs u
      × (v.query (request_for u m) ≡ succeeded p)
      × (p.rows ≡ [])
  Covers t rs lost =
      (u : Text) × (x : AwsError) × Before t rs u × (v.query (request_for u m) ≡ failed x)

  -- The state of a query between two calls that still has the rows `rs` to deliver: those that the
  -- cursor has not reached, and those of the stream whose first page the only worker fetches, or of
  -- the last page where its outcome stands in the queue already.
  pub data Delivering (s : QueryState c) (rs : List (Row c)) : Ending → Type 0 where
    on_last :
        {e : Ending} (k : TimestreamCursor c)
        → s.cursor ≡ some k
        → IsAligned c k
        → s.has_async_fetch ≡ false
        → rs ≡ rest c k
        → e ≡ complete
        → Delivering s rs e
    ahead :
        {e : Ending} (k : TimestreamCursor c) (t : Text) (later : List (Row c))
        → s.cursor ≡ some k
        → IsAligned c k
        → s.has_async_fetch ≡ true
        → s.queue ≡ []
        → s.threads ≡ running (request_for t m) ∷ []
        → s.request ≡ request_for t m
        → Stream t later e
        → rs ≡ rest c k ++ later
        → Delivering s rs e
    queued :
        {e : Ending} (k : TimestreamCursor c) (p : Page c)
        → s.cursor ≡ some k
        → IsAligned c k
        → s.has_async_fetch ≡ true
        → s.queue ≡ succeeded p ∷ []
        → p.rows ≢ []
        → p.next_token ≡ []
        → rs ≡ rest c k ++ p.rows
        → e ≡ complete
        → Delivering s rs e

  -- The row that the cursor stands on.
  abbrev pub current_row : QueryState c → Option (Row c)
  current_row s = elim s.cursor [ none ↦ none | some k ↦ get_elem? k.rows k.iterator ]
