-- ===== src/Sql.antt =====
-- The SQL text layer of cmd/execdb: the scanner, the keyword classifier, access control, quoting.
pub mod Lexer
pub mod Scan
pub mod Keyword
pub mod Access
pub mod Quote
