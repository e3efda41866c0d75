-- ===== src/DataQuery/Worker.antt =====
-- The worker threads of a query: `AsyncFetchOnePage`, and the waits and joins of the main thread.
-- A worker sends its request, waits until the queue is empty or the query is closing, and pushes
-- the outcome if the queue is empty. The main thread runs a worker only at a wait or a join, the
-- first moments at which it can see what the worker did. `none` is a wait that never ends.
use amazon_timestream_odbc_d.Base.{
  if◌then◌else◌, is_empty, Text, true, Option, none, some, List, [], ◌∷◌, ◌++◌,
}
use amazon_timestream_odbc_d.Cursor.{Columns}
use amazon_timestream_odbc_d.DataQuery.State.{
  QueryOutcome, Service, Thread, QueryState, running, finished,
}

infixl 5 ◌>>=◌
abbrev pub ◌>>=◌ {ℓ κ} : {A : Type ℓ} {B : Type κ} → Option A → (A → Option B) → Option B
none >>= f = none
some a >>= f = f a

module _ {c : Columns} (v : Service c) where
  -- The end of `AsyncFetchOnePage`, given the outcome of its request.
  unfoldable pub async_fetch_one_page : QueryOutcome c → QueryState c → Option (QueryState c)
  async_fetch_one_page outcome s =
      if is_empty s.queue
      then some (record s { queue = outcome ∷ [] })
      else if s.is_closing
      then some s
      else none

  -- `join` on a thread of the queue.
  unfoldable pub join : Thread c → QueryState c → Option (QueryState c)
  unfolding async_fetch_one_page
  join finished s = some s
  join (running r) s = async_fetch_one_page (v.query r) s

  -- The loop of `InternalClose` over the threads.
  unfoldable pub join_all : List (Thread c) → QueryState c → Option (QueryState c)
  unfolding join
  join_all [] s = some (record s { threads = [] })
  join_all (t ∷ ts) s = join t s >>= join_all ts

  unfoldable pub internal_close : QueryState c → Option (QueryState c)
  unfolding join_all
  internal_close s = do
    s' ← join_all s.threads (record s { is_closing = true })
    some (record s' { result = none; cursor = none })

  -- The first worker that still runs delivers its outcome to the empty queue.
  unfoldable pub deliver : List (Thread c) → Option (QueryOutcome c × List (Thread c))
  deliver [] = none
  deliver (running r ∷ ts) = some (v.query r, finished ∷ ts)
  deliver (finished ∷ ts) = do (o, ts') ← deliver ts; some (o, finished ∷ ts')

  -- `cv_.wait` for an outcome, and its removal from the queue.
  unfoldable pub wait_outcome : QueryState c → Option (QueryOutcome c × QueryState c)
  unfolding deliver
  wait_outcome s = elim s.queue [
    | o ∷ rest ↦ some (o, record s { queue = rest })
    | [] ↦ deliver s.threads >>= λ p. some (p.0, record s { threads = p.1 })
  ]

  -- The wait for the last thread in `SwitchCursor`, which does nothing where there is none.
  unfoldable pub join_front : QueryState c → Option (QueryState c)
  unfolding join
  join_front s = elim s.threads [
    | [] ↦ some s
    | t ∷ ts ↦ do s' ← join t s; some (record s' { threads = ts })
  ]

  -- A new worker for the current request.
  unfoldable pub start_worker : QueryState c → QueryState c
  start_worker s = record s { threads = s.threads ++ running s.request ∷ [] }

  unfoldable pub set_next_token : Text → QueryState c → QueryState c
  set_next_token t s = record s {
    request = record { next_token = t; max_rows = s.request.max_rows };
  }
