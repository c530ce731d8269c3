-- ===== src/Sql/Quote.antt =====
-- cmd/execdb/dump.go, cmd/execdb/import.go: quoted identifiers and the statements built from them.
mod Defs
mod Inert
mod Single
unfoldable pub use Defs.*
pub use Inert.*
pub use Single.*
