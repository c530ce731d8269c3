-- ===== src/Pg/Extended.antt =====
-- cmd/execdb/pgextended.go: the extended query protocol.
pub mod Statements
pub mod Rows
pub mod Describe
pub mod Execute
pub mod Laws
pub mod Formats
