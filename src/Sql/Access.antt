-- ===== src/Sql/Access.antt =====
-- cmd/execdb/access.go: access control for the external interface, and what it rejects.
mod Defs
mod Smuggling
mod Case
mod Hidden
unfoldable pub use Defs.*
pub use Smuggling.*
pub use Case.*
pub use Hidden.*
