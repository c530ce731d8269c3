-- ===== src/Pg/Listeners.antt =====
-- cmd/execdb/pgwire.go: the sockets that `startPgwire` opens, and the function that closes them.
pub mod Laws
use execdb.Prelude.{
  Bool, true, false, not, ◌&&◌, Option, none, some, if◌then◌else◌, List, [], ◌∷◌, ◌++◌, Text, codes,
  is_empty, ◌⊎◌, inl, inr,
}
use execdb.Repl.Names.{Options}

pub data Listener : Type 0 where
  tcp unix : Listener

-- Whether each listener is open, and whether there is a file at `opts.socket`.
pub record Sockets : Type 0 where
  pub tcp_open : Bool
  pub unix_open : Bool
  pub socket_file : Bool

-- The errors of the two calls of `net.Listen` and of `os.Chmod`.
pub record Faults : Type 0 where
  pub listen_tcp : Option Text
  pub listen_unix : Option Text
  pub chmod : Option Text

abbrev pub close : Listener → Sockets → Sockets
close tcp s = record s { tcp_open = false }
close unix s = record s { unix_open = false }

abbrev pub close_all : List Listener → Sockets → Sockets
close_all [] s = s
close_all (l ∷ ls) s = close_all ls (close l s)

-- `stop`.
unfoldable pub stop : Options → List Listener → Sockets → Sockets
stop opts listeners s =
    let s' = close_all listeners s in
    if is_empty opts.socket then s' else record s' { socket_file = false }

-- `listeners` when `startPgwire` returns, its error, and the sockets.
pub record Started : Type 0 where
  pub listeners : List Listener
  pub error : Option Text
  pub sockets : Sockets

abbrev listen_error : Text → Text → Text
listen_error addr message = codes "pgwire: listen on " ++ (addr ++ (codes ": " ++ message))

-- The part of `startPgwire` for the socket's path.
unfoldable pub start_unix : Options → Faults → List Listener → Sockets → Started
unfolding stop
start_unix opts f listeners s =
    if is_empty opts.socket
    then record { listeners = listeners; error = none; sockets = s }
    else elim f.listen_unix [
      | some message ↦ record {
        listeners = listeners;
        error = some (listen_error opts.socket message);
        sockets = stop opts listeners (record s { socket_file = false });
      }
      | none ↦
          let s' : Sockets = record s { unix_open = true; socket_file = true } in
          elim f.chmod [
            | some message ↦ record {
              listeners = listeners;
              error = some (codes "pgwire: chmod " ++ (opts.socket ++ (codes ": " ++ message)));
              sockets = stop opts listeners s';
            }
            | none ↦ record { listeners = listeners ++ (unix ∷ []); error = none; sockets = s' }
          ]
    ]

-- `startPgwire`.
unfoldable pub start_pgwire : Options → Faults → Sockets → Started
unfolding start_unix
start_pgwire opts f s =
    if is_empty opts.pg_addr then start_unix opts f [] s else elim f.listen_tcp [
      | some message ↦ record {
        listeners = [];
        error = some (listen_error opts.pg_addr message);
        sockets = s;
      }
      | none ↦ start_unix opts f (tcp ∷ []) (record s { tcp_open = true })
    ]

-- `acceptLoop`, of what each `Accept` gives: the connections that a goroutine handles.
unfoldable pub accept_loop : {A : Type 0} → List (Text ⊎ A) → List A
accept_loop [] = []
accept_loop (inl message ∷ accepts) = []
accept_loop (inr conn ∷ accepts) = conn ∷ accept_loop accepts
