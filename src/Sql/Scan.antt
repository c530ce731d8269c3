-- ===== src/Sql/Scan.antt =====
-- cmd/execdb/access.go: the statement scanner and its laws.
mod Defs
mod Laws
unfoldable pub use Defs.*
unfoldable pub use Laws.*
