-- ===== src/Tests.antt =====
-- Runs of the model on concrete inputs, and the theorems at inputs that meet their hypotheses.
mod Sql
mod Engine
mod Pg
mod Server
mod Repl
mod Storage
mod Wired
mod Shell
mod Connection
mod Watch
mod Requests
