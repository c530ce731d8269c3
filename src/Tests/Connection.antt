-- ===== src/Tests/Connection.antt =====
-- A client that logs in, sends a query and goes.
use execdb.Prelude.{
  ℕ, ◌+◌, true, none, [], ◌∷◌, ◌++◌, codes, length, Text, Map, Bytes, put_be, lookup, ◌≡◌, inl, inr,
  refl,
}
use execdb.Pg.Conn.{Driver}
use execdb.Pg.Cancel.{Registry}
use execdb.Pg.Wire.{frame, cstring}
use execdb.Pg.Handshake.{
  protocol_version3, perform_handshake, ready, read_startup_header, read_startup_params,
}
use execdb.Pg.Handshake.Laws.{header, Admitted}
use execdb.Pg.Server.{Setting, handle_connection}
use execdb.Pg.Server.Laws.{has_session, handle_connection-Admitted}

-- A database that has no rows and counts the statements.
abbrev counter : Driver
counter = record {
  State = ℕ;
  prepare = λ q s. (inr 0, s);
  close_stmt = λ h s. s;
  query_stmt = λ h args s. (inl (codes "no rows"), s);
  exec_stmt = λ h args s. (inr 1, s + 1);
  query = λ q s. (inl (codes "no rows"), s);
  exec = λ q s. (inr 1, s + 1);
  widen = λ n. n;
  zero_time = 0;
  formats = record { format_float = λ f. []; format_time = λ t. [] };
}

abbrev setting : Setting counter
setting = record {
  user = codes "u";
  password = codes "secret";
  keys = record { pid = 1; secret = 2 } ∷ [];
  version = codes "dev";
  open_session = λ s. (none, s);
  attached = λ s. (inr true, s);
  setup_sql = [];
}

abbrev no_connections : Registry
no_connections = record { entries = []; running = λ n. none; next_conn = 0; cancelled = [] }

abbrev sent : Bytes
sent =
    header 16 protocol_version3
    ++ ((codes "user" ++ (0 ∷ codes "u"))
        ++ (0 ∷ 0 ∷ (frame b'p' (cstring (codes "secret")) ++ frame b'X' [])))

logged_in : has_session counter (handle_connection counter setting no_connections 0 sent).0 ≡ true
unfolding handle_connection put_be frame read_startup_header read_startup_params lookup
logged_in = refl

session_example :
    (params : Map Text) × (rest : Bytes) × ((perform_handshake (length sent + 1) sent 0).0
      ≡ ready params rest)
    × Admitted (codes "u") (codes "secret") params rest
session_example = handle_connection-Admitted counter setting no_connections 0 sent logged_in
