-- ===== src/Engine.antt =====
-- Package engine.
pub mod Errors
pub mod Footer
pub mod Files
pub mod Atomic
pub mod Overwrite
pub mod Sqlite
pub mod Scratch
pub mod Db
pub mod Live
pub mod Barrier
