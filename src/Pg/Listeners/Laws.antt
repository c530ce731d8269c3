-- ===== src/Pg/Listeners/Laws.antt =====
-- cmd/execdb/pgwire.go: what is open behind `startPgwire`.
use execdb.Prelude.{false, none, ◌≢◌, ◌≡◌, arith}
use execdb.Repl.Names.{Options}
use execdb.Pg.Listeners.{Sockets, Faults, stop, start_unix, start_pgwire}

-- No listener is open.
abbrev pub AllClosed : Sockets → Type 0
AllClosed s = (s.tcp_open ≡ false) × (s.unix_open ≡ false)

-- A successful start can be undone.
pub start_pgwire-stop :
    (opts : Options) (f : Faults) (s : Sockets)
    → AllClosed s
    → (start_pgwire opts f s).error ≡ none
    → AllClosed (stop opts (start_pgwire opts f s).listeners (start_pgwire opts f s).sockets)
unfolding start_pgwire start_unix stop
start_pgwire-stop opts f s (t, u) e = ground arith

-- Where no listener was open and the change of the socket's mode does not fail, a `startPgwire`
-- that returns an error has left no listener open.
pub start_pgwire-failed :
    (opts : Options) (f : Faults) (s : Sockets)
    → AllClosed s
    → f.chmod ≡ none
    → (start_pgwire opts f s).error ≢ none
    → AllClosed (start_pgwire opts f s).sockets
unfolding start_pgwire start_unix stop
start_pgwire-failed opts f s (t, u) c e = ground arith
