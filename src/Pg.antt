-- ===== src/Pg.antt =====
-- cmd/execdb/pg*.go and auth.go: the PostgreSQL wire protocol.
pub mod Types
pub mod Values
pub mod Wire
pub mod Handshake
pub mod Cancel
pub mod Listeners
pub mod Messages
pub mod Server
pub mod Watch
pub mod Session
pub mod Catalog
pub mod Conn
pub mod Extended
pub mod Dispatch
