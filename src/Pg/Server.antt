-- ===== src/Pg/Server.antt =====
-- cmd/execdb/pgwire.go and cmd/execdb/pgcatalog.go: a connection from its first byte to its last.
pub mod Fuel
pub mod Laws
use execdb.Prelude.{
  ℕ, zero, suc, ◌+◌, Bool, true, false, Option, none, some, if◌then◌else◌, List, [], ◌∷◌, ◌++◌,
  Text, codes, length, Bytes, Map, ◌⊎◌, inl, inr,
}
use execdb.Pg.Wire.{
  Message, Reply, read_frontend_message, parameter_status, backend_key_data, ready_for_query,
  error_response, sqlstate_generic,
}
use execdb.Pg.Conn.{Driver, Conn}
use execdb.Pg.Cancel.{CancelKey, Registry, register, unregister, cancel}
use execdb.Pg.Handshake.{
  Handshake, ready, unusable, cancels, panics, waits, perform_handshake, authenticate_connection,
}
use execdb.Pg.Session.{new_session_params}
use execdb.Pg.Dispatch.{Outcome, run}

-- The messages that `readFrontendMessage` reads up to its first error.
unfoldable pub messages : ℕ → Bytes → List Message
unfolding read_frontend_message
messages zero bs = []
messages (suc n) bs = elim (read_frontend_message bs) [
  | none ↦ []
  | some (m, rest) ↦ m ∷ messages n rest
]

-- `startupParameterStatus`.
abbrev pub startup_parameter_status : Text → List (Text × Text)
startup_parameter_status version =
    (codes "server_version", codes "13.0 (ExecDB " ++ (version ++ codes ")"))
    ∷ (codes "client_encoding", codes "UTF8")
    ∷ (codes "standard_conforming_strings", codes "on")
    ∷ (codes "DateStyle", codes "ISO, MDY")
    ∷ (codes "TimeZone", codes "UTC")
    ∷ (codes "integer_datetimes", codes "on")
    ∷ []

abbrev pub status_replies : List (Text × Text) → List Reply
status_replies [] = []
status_replies ((k, v) ∷ kvs) = parameter_status k v ∷ status_replies kvs

-- `sendStartupTail`.
unfoldable pub startup_tail : Text → CancelKey → List Reply
startup_tail version key =
    status_replies (startup_parameter_status version)
    ++ (backend_key_data key.pid key.secret ∷ ready_for_query b'I' ∷ [])

module _ (d : Driver) where
  open d use {State}

  -- What `handleConnection` has beside the connection: `user` and `password`, the keys that `rand`
  -- gives, `version`, `db.Session`, the query of `pgCatalogAlreadyAttached` (an error, or whether it
  -- has a row) and the text that `setupPGCatalog` executes.
  pub record Setting : Type 0 where
    pub user : Text
    pub password : Text
    pub keys : List CancelKey
    pub version : Text
    pub open_session : State → Option Text × State
    pub attached : State → (Text ⊎ Bool) × State
    pub setup_sql : Text

  -- How a connection ends: before it has a session, without one or without the catalog, in the
  -- loop over its messages, or with the process. The 'N's of the handshake are not among the
  -- replies.
  pub data Served : Type 0 where
    turned_away : List Reply → Served
    no_session : State → List Reply → Served
    served : List Reply → Outcome d → Served
    crashed : Served

  -- `setupPGCatalog`.
  unfoldable pub setup_pg_catalog : Setting → State → Option Text × State
  setup_pg_catalog g db =
      let (r, db') = g.attached db in
      let (e, db'') = d.exec g.setup_sql db' in
      elim r [
        | inl message ↦ (some (codes "setupPGCatalog: " ++ message), db')
        | inr true ↦ (none, db')
        | inr false ↦ elim e [
          | inl message ↦ (some (codes "setupPGCatalog: " ++ message), db'')
          | inr _ ↦ (none, db'')
        ]
      ]

  -- From `newSessionParams` on.
  unfoldable pub serve_messages : Setting → List Reply → State → Bytes → Served
  unfolding messages new_session_params
  serve_messages g said db rest = served said (
      run d
        (record {
          statements = [];
          portals = [];
          in_error = false;
          tx_state = b'I';
          params = new_session_params (startup_parameter_status g.version);
          db = db;
        })
        (messages (length rest) rest))

  -- From `db.Session` on.
  unfoldable pub open_and_serve : Setting → List Reply → State → Bytes → Served
  unfolding setup_pg_catalog serve_messages
  open_and_serve g said db rest =
      let (e, db') = g.open_session db in
      let (f, db'') = setup_pg_catalog g db' in
      elim e [
        | some message ↦ no_session db' (said ++ (error_response sqlstate_generic message ∷ []))
        | none ↦ elim f [
          | some message ↦ no_session db'' (said ++ (error_response sqlstate_generic message ∷ []))
          | none ↦ serve_messages g said db'' rest
        ]
      ]

  -- From `register` on, which tries keys until one is free; `unregister` is deferred.
  unfoldable pub admit : Setting → Registry → List Reply → State → Bytes → Served × Registry
  unfolding register startup_tail open_and_serve unregister
  admit g r replies db rest = elim (register g.keys r) [
    | none ↦ (turned_away replies, r)
    | some (key, cc, r') ↦
        (open_and_serve g (replies ++ startup_tail g.version key) db rest, unregister key r')
  ]

  -- From `authenticateConnection` on.
  unfoldable pub authenticate_and_admit :
      Setting → Registry → Map Text → State → Bytes → Served × Registry
  unfolding authenticate_connection admit
  authenticate_and_admit g r params db rest =
      let (usable, replies, rest') = authenticate_connection rest g.user g.password params in
      if usable then admit g r replies db rest' else (turned_away replies, r)

  -- Behind `performHandshake`.
  unfoldable pub after_handshake : Setting → Registry → State → Handshake → Served × Registry
  unfolding authenticate_and_admit cancel
  after_handshake g r db unusable = (turned_away [], r)
  after_handshake g r db waits = (turned_away [], r)
  after_handshake g r db panics = (crashed, r)
  after_handshake g r db (cancels pid secret) =
      (turned_away [], (cancel (record { pid = pid; secret = secret }) r).0)
  after_handshake g r db (ready params rest) = authenticate_and_admit g r params db rest

  -- `handleConnection`, of all the bytes that a client sends before it goes.
  unfoldable pub handle_connection : Setting → Registry → State → Bytes → Served × Registry
  unfolding perform_handshake after_handshake
  handle_connection g r db bs = after_handshake g r db (perform_handshake (length bs + 1) bs 0).0
