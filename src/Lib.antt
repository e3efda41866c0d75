-- ===== src/Lib.antt =====
-- The core of the Amazon Timestream ODBC driver, modelled from its C++ sources, with the theorems
-- that make it correct. Paths are from the root of the repository.
--
-- An application calls the driver through handles. A statement runs a data query, which asks the
-- Timestream Query service for one page of rows after the other and reads the rows of a page through
-- a cursor; the values go to the application's buffers through conversions that depend on the types
-- of the columns; what goes wrong is left as diagnostic records in the handle, from where the
-- application collects it.
--
-- Base: lists, texts, integers and Boolean tests that the other modules share. A `std::string` is the
--   list of its bytes, `std::nullopt` and a null pointer are `none`.
-- SqlTypes (src/odbc/include/timestream/odbc/common_types.h, src/odbc/src/common_types.cpp): the enumerations
--   of the driver and their exchange with the codes of ODBC.
-- Utility (src/odbc/src/utility.cpp): CopyUtf8StringToWcharString, CopyUtf8StringToSqlWcharString and
--   CopyStringToBuffer. The C++ library's codecvt is the parameter `Codecvt`, with what its standard
--   says of it: the units fit the room given, and `ok` means that all was consumed.
-- Diagnostic (src/odbc/src/diagnostic, and SQLGetDiagField, SQLGetDiagRec and SQLError of
--   src/odbc/src/odbc.cpp): a `DiagnosticRecord` of Record, the `DiagnosticRecordStorage` of Storage with an
--   operation per method, `get_field` of Fields for GetField over any application buffer, the calls in
--   DiagRec and Retrieval.
-- TypeTraits (src/odbc/src/type_traits.cpp): the exchange between the service's scalar types and the SQL
--   types, and the sizes reported for them.
-- Cursor (src/odbc/src/timestream_cursor.cpp): `TimestreamCursor`, over the interface `Columns`, which stands
--   for the values of the service and their conversion to a buffer.
-- DataQuery (src/odbc/src/query/data_query.cpp): `QueryState` of State holds the fields of DataQuery and of
--   its context. Worker has the thread that fetches a page ahead (AsyncFetchOnePage) and the waits of
--   SwitchCursor and InternalClose; Execute has Execute, MakeRequestExecute, MakeRequestFetch, Cancel and
--   GetMeta; Fetch has FetchNextRow, SwitchCursor, GetColumn and ProcessConversionResult.
--   `fetch_next_row` calls `increment` of Cursor, `switch_cursor` the worker's delivery, and both leave their
--   records in the storage of Diagnostic. Stream says which of a service's pages the driver asks for: a
--   relation between a page's token, the rows that follow, and how they end, where a later page without
--   rows is an end whatever its token. `Covers` says, without regard to the driver, which of the
--   service's rows these are. The proofs stand in Frame, Delivery,
--   Rows, Ends, OpenCursor, Opening, Result and Reexecution.
-- Config (src/odbc/src/config/connection_string_parser.cpp and configuration.cpp, and the texts of
--   src/odbc/src/authentication/auth_type.cpp and src/odbc/src/log_level.cpp): `Configuration` of Settings holds
--   the settable values; `handle_attribute_pair` of Attributes is HandleAttributePair, which finds the
--   attribute by its lower-case name and sets or reports it, with the caller's records beside the
--   configuration in `Parsed`; `parse_connection_string` of Parser is the loop over the string, from its
--   last attribute to its first, on the length of the string as fuel, since a round removes at least
--   one character. `sizeof(std::string)` and IsValidDirectory are parameters. That SetLogLevel and
--   SetLogPath also tell the logger is left out.
-- Statement (src/odbc/src/statement.cpp): `internal_fetch_row` is InternalFetchRow, the loop over the row
--   array around `fetch_next_row` of DataQuery, with the caller's counter and statuses. The offsets that it
--   sets in the bound buffers are parameters.
-- Values (src/odbc/src/time.cpp, timestamp.cpp, interval_year_month.cpp, interval_day_second.cpp): the two points in
--   time and the two intervals, with a module of comparisons for each.
-- AppBuffer (src/odbc/src/app/application_data_buffer.cpp, and CopyUtf8StringToSqlCharString of
--   src/odbc/src/utility.cpp): `ApplicationDataBuffer` with its addresses and element sizes; Strings has
--   PutStrToStrBuffer, Puts the numbers, strings, decimals and nulls, Dates and Intervals the rest. An
--   operation gives an `Outcome` of Store: the result, the data and the length that it stores, and the
--   buffer after it; `none` stands for behaviour that is not defined and for an exception. Numbers have
--   at most 20 digits, enough for 64 bits. `Platform` holds the conversions of the C++ library, the clock
--   and the Ignite library as parameters; `IsExact` of Ascii says that the conversions keep ASCII.
-- TimestreamColumn (src/odbc/src/timestream_column.cpp): `read_to_buffer` is ReadToBuffer, over AppBuffer, with
--   `sscanf` in Scanning. Rendering describes the text of nested values without the buffers.
-- Descriptor (src/odbc/src/descriptor.cpp): a `Descriptor` with its records by number; Types has the
--   tests of codes and their texts, Codes the casts of the pointer of a call, Operations SetField and CopyDesc, Reading GetField. The statement's binding that a null data pointer removes is the `unbound`
--   of a call.
-- Environment (src/odbc/src/environment.cpp): `Environment` with the addresses of its connections; States has the
--   states that calls can reach.
--
-- An operation that waits for ever is `none`: the wait of SwitchCursor with no outcome to come. The
-- loop of MakeRequestExecute, which goes on past pages without rows, runs on fuel; a service's
-- `Opens` states how many pages it asks for, and that much fuel is enough. The service is a function
-- from a request to its outcome, so that asking twice gives the same page. A worker thread is the
-- request that it was started with; the queue of its context holds one outcome, so that its delivery
-- can be put at the moment when the main thread waits, and no other order can be seen.
--
-- Not modelled: the calls of the AWS SDK, logging, the other handles and calls of the driver
-- (the rest of the statement, connection, the entry points), the metadata queries, authentication, the
-- conversion of parameters from the types of C, the code copied from Apache Ignite, the layers of operating
-- systems, the dialogs and the installers.
pub mod AppBuffer
pub mod Base
pub mod Config
pub mod Cursor
pub mod DataQuery
pub mod Descriptor
pub mod Diagnostic
pub mod Environment
pub mod SqlTypes
pub mod Statement
pub mod TimestreamColumn
pub mod TypeTraits
pub mod Utility
pub mod Values
