-- ===== src/Lib.antt =====
-- ExecDB is a SQLite database that carries its own engine: the executable file ends with the
-- serialized database and a footer that says where it lies. It is used through a shell, through the
-- PostgreSQL wire protocol, and as a Go package. These files model the parts of it that decide,
-- in the order in which the code runs, with theorems about them.
--
-- The parts, and how they meet:
--   * Sql models cmd/execdb/access.go, and the building of SQL in cmd/execdb/dump.go and
--     cmd/execdb/import.go. Sql/Lexer has the loops that skip literals and comments as a state
--     machine over runes; Sql/Scan is `scanStatements`, Sql/Keyword `firstKeyword` and the tests on a
--     statement, Sql/Access `checkExternalAccess`, Sql/Quote `quoteIdent` and the SQL of .import.
--   * Engine models engine/. Engine/Footer is engine/footer.go on the bytes of a file. Engine/Atomic
--     is `writeImageAtomic` and Engine/Overwrite `overwriteSelf` of engine/persist.go, on a file
--     system that is a function from paths, where each step may fail. SQLite is the record of
--     Engine/Sqlite, whose one law is that a serialized content is restored. Engine/Scratch is
--     `loadBlobInto` of engine/serialize.go and `backupInto` of engine/backup.go, with a fault at
--     each call and the handles that they hold open. Engine/Db has the operations of `DB` in
--     engine/engine.go and engine/persist.go, with Engine/Scratch behind those that load.
--     Engine/Barrier has `serializeBarrier` call by call, as a step relation with the sessions
--     that write meanwhile; Engine/Db has one step for it. Engine/Live has the pool, the keeper
--     and the sessions of a DB, engine/engine.go and engine/session.go, as handles that are open
--     or closed.
--   * Pg models the wire protocol, cmd/execdb/pg*.go and cmd/execdb/auth.go. A connection is the
--     bytes that come in and the replies that go out. Pg/Types and Pg/Values are pgtype.go, Pg/Wire
--     is pgproto.go, Pg/Handshake is `performHandshake` and `authenticateConnection`, Pg/Cancel is
--     pgcancel.go, Pg/Session is pgsession.go, Pg/Messages has the parsers of pgextended.go and
--     Pg/Extended its handlers, Pg/Dispatch is `handleSimpleQuery` and the loop of
--     `handleConnection`, Pg/Listeners is `startPgwire`, and Pg/Server is `handleConnection` from
--     the first byte on, which puts these together. database/sql is the record Driver of Pg/Conn,
--     which has no law; what Pg/Dispatch/Handles needs of its handles is the record Handles there.
--     Pg/Dispatch uses `checkExternalAccess` and `splitStatements` of Sql. Pg/Watch has
--     `watchForDisconnect` as a step relation, with the client and the loop beside it, and
--     Pg/Cancel/Steps the requests to cancel, with the connections beside them. Pg/Catalog is
--     pgcatalog.go: each view as a function of the rows of sqlite_master and pragma_table_info, with
--     LIKE and upper() of SQL written out.
--   * Repl models the shell. Repl/Shell is cmd/execdb/repl.go: the commands, and in Repl/Shell/Loop the
--     lines that `run` reads; Repl/Complete is complete.go, Repl/Output format.go, Repl/Dump dump.go,
--     Repl/Import import.go, Repl/DotCommand dotcmd.go, Repl/Interrupts interrupt.go, and Repl/Names
--     filename.go with the functions of main.go and auth.go that choose a name and a password. What
--     the shell calls, the session, the DB, the files and the standard library, is the record System
--     of Repl/System, whose functions take and give the state behind them; it has no law. What
--     Repl/Import/Laws needs of SQLite's savepoints is the record Savepoints there, and Repl/Wired
--     fills the fields for `Snapshot`, `Load` and `Inspect` with those of Engine/Db.
--   * Program models the order of the calls in cmd/execdb/main.go, and Program/Flags its flags, from
--     the assignments that package flag makes; it uses Repl/Names.
--   * Prelude has what they share, and Tests has runs on concrete inputs.
--
-- A Go text is the list of its runes; where Go indexes bytes, the two are the same on ASCII. Integers
-- are natural numbers: an int16, int32 or int64 is its bit pattern, and what wraps is written with
-- the modulus. A Go map is an association list, in which `insert` replaces. A panic is an outcome:
-- `none` in Pg/Extended, `crashes` in Pg/Dispatch, `panics` in Pg/Handshake, `crashed` in Pg/Server.
--
-- Fuel: the rounds of `performHandshake` take 8 bytes each, the pairs of the startup parameters two
-- or more, and a message five or more, so that the length of the input is enough for each; a
-- decimal of 64 bits has 20 digits. The shell runs over a list of its inputs.
--
-- Not modelled: sockets, goroutines and their interleavings but for those of the barrier, of the
-- watch for a disconnect and of the requests to cancel, contexts, writes to a connection that fail
-- (each ends the connection), the parsing of the command line by package flag, the run of the
-- catalog's SQL text by SQLite, and the driver calls of engine/complete.go and engine/function.go.
-- The text of a finite float and of a time, JSON strings and CSV records are parameters, and `%q`
-- is modelled for text that can be printed.
pub mod Prelude
pub mod Sql
pub mod Engine
pub mod Pg
pub mod Repl
pub mod Program
pub mod Tests
