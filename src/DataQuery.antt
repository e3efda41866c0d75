-- ===== src/DataQuery.antt =====
-- src/odbc/src/query/data_query.cpp: a query that fetches the pages of its result one ahead.
-- The child modules are the state and the service (State), the worker threads (Worker), the fetch
-- of rows (Fetch), the execution (Execute), and the theorems on them.
pub mod State
pub mod Worker
pub mod Fetch
pub mod Execute
pub mod Stream
pub mod Frame
pub mod Delivery
pub mod Rows
pub mod Ends
pub mod OpenCursor
pub mod Opening
pub mod Result
pub mod Reexecution
pub mod Examples
