-- ===== src/Repl.antt =====
-- cmd/execdb: the interactive shell.
pub mod Complete
pub mod Dump
pub mod DotCommand
pub mod Import
pub mod Interrupts
pub mod Names
pub mod Output
pub mod Shell
pub mod System
pub mod Wired
