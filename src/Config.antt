-- ===== src/Config.antt =====
-- src/odbc/src/config: the connection string and the configuration that it fills.
pub mod Texts
pub mod Settings
pub mod Attributes
pub mod Parser
pub mod TextLaws
pub mod ParserLaws
pub mod NumberLaws
pub mod NameLaws
pub mod Reports
mod Examples
