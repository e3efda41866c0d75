-- ===== src/Diagnostic.antt =====
-- src/odbc/src/diagnostic: the diagnostic records of a handle, and the ODBC calls that read them.
pub mod Record
pub mod Storage
pub mod Retrieval
pub mod SqlStates
pub mod Origins
pub mod Fields
pub mod FieldLaws
pub mod DiagRec
pub mod DiagRecLaws
mod Examples
