-- ===== src/Pg/Conn.antt =====
-- cmd/execdb/pgextended.go and cmd/execdb/pgwire.go: what a connection keeps between messages, and
-- what it needs of database/sql and SQLite.
use execdb.Prelude.{ℕ, Bool, true, false, Option, some, List, [], ◌∷◌, Text, Map, ◌⊎◌}
use execdb.Pg.Types.{Value, ColumnType}
use execdb.Pg.Wire.{Reply, error_response}
use execdb.Pg.Values.{Formats}

-- `*sql.Rows`: the types of the columns, what `Scan` gives of each row for so many destinations, and
-- the error that ended the rows. A message stands for an error.
pub record Rows : Type 0 where
  pub types : Text ⊎ List ColumnType
  pub scans : List (ℕ → Text ⊎ List Value)
  pub failed : Option Text

-- A session of database/sql. A prepared statement is a number, and so is a result's
-- `RowsAffected`.
pub record Driver : Type 1 where
  pub State : Type 0
  pub prepare : Text → State → (Text ⊎ ℕ) × State
  pub close_stmt : ℕ → State → State
  pub query_stmt : ℕ → List Value → State → (Text ⊎ Rows) × State
  pub exec_stmt : ℕ → List Value → State → (Text ⊎ ℕ) × State
  pub query : Text → State → (Text ⊎ Rows) × State
  pub exec : Text → State → (Text ⊎ ℕ) × State
  pub widen : ℕ → ℕ  -- a float32's bits as a float64's
  pub zero_time : ℕ  -- `time.Time{}`
  pub formats : Formats

-- `preparedStatement`; a slice that may be nil is an option.
pub record PreparedStatement : Type 0 where
  pub sql : Text
  pub stmt : ℕ
  pub num_params : ℕ
  pub row_returning : Bool
  pub param_oids : List ℕ
  pub result_oids : Option (List ℕ)

-- `portal`.
pub record Portal : Type 0 where
  pub stmt_name : Text
  pub args : List Value
  pub result_formats : List ℕ
  pub result_oids : Option (List ℕ)

-- `extendedQueryConn`, and the other variables of `handleConnection`'s loop.
pub record Conn (S : Type 0) : Type 0 where
  pub statements : Map PreparedStatement
  pub portals : Map Portal
  pub in_error : Bool
  pub tx_state : ℕ
  pub params : Map Text
  pub db : S

-- What a handler comes to, where every write succeeds: `ok`, the connection, and what was written;
-- `none` where an index is out of range, which stops the process.
abbrev pub Handled : Type 0 → Type 0
Handled S = Option (Bool × Conn S × List Reply)

module _ {S : Type 0} where
  abbrev pub refuse : Conn S → Text → Text → Handled S
  refuse c sqlstate message = some (false, c, error_response sqlstate message ∷ [])

  abbrev pub accept : Conn S → List Reply → Handled S
  accept c replies = some (true, c, replies)
