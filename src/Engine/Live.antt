-- ===== src/Engine/Live.antt =====
-- engine/engine.go and engine/session.go: what a DB and its sessions hold of database/sql, from
-- `newLiveDB` to `Close`. A `*sql.DB` and a `*sql.Conn` are numbers.
pub mod Laws
pub mod Names
pub mod Sessions
pub mod Lives
use execdb.Prelude.{
  ℕ, zero, suc, ◌+◌, Bool, true, false, not, ◌||◌, Option, none, some, ◌==◌, if◌then◌else◌, List,
  [], ◌∷◌, ◌++◌, Text, codes, Bytes, get_elem?,
}
use execdb.Pg.Values.{decimal}
use execdb.Engine.Errors.{Result, ok, err, ◌>>=◌, closed, sqlite_error}
use execdb.Engine.Footer.{Info, no_info}
use execdb.Engine.Db.{Loaded}

-- Which handles of database/sql are open, and whether one was closed that was not. `seq` is `dbSeq`.
pub record Handles : Type 0 where
  pub is_open : ℕ → Bool
  pub next : ℕ
  pub misused : Bool
  pub seq : ℕ

abbrev pub set_open : ℕ → Bool → (ℕ → Bool) → ℕ → Bool
set_open h b is_open k = if k == h then b else is_open k

-- `sql.Open` or `sdb.Conn`, where they succeed.
abbrev pub opened : Handles → Handles
opened w = record w { is_open = set_open w.next true w.is_open; next = w.next + 1 }

-- `Close` of either.
abbrev pub released : ℕ → Handles → Handles
released h w = record w {
  is_open = set_open h false w.is_open;
  misused = w.misused || not (w.is_open h);
}

-- `DB`, but for the content of the database.
pub record Live : Type 0 where
  pub sdb : ℕ
  pub keeper : ℕ
  pub dsn : Text
  pub is_closed : Bool
  pub source_path : Text
  pub engine_size : ℕ
  pub info : Info

abbrev pub dsn_of : ℕ → Text
dsn_of seq = codes "file:/execdb" ++ (decimal seq ++ codes "?vfs=memdb&_busy_timeout=5000")

-- `newLiveDB`, and `New` on what it returns. `open_fails` and `conn_fails` are the answers of
-- database/sql.
unfoldable pub new_live_db : Bool → Bool → Handles → Result Live × Handles
unfolding decimal
new_live_db open_fails conn_fails w₀ =
    let w = record w₀ { seq = w₀.seq + 1 } in
    let pool = opened w in
    if open_fails
    then (err sqlite_error, w)
    else if conn_fails
    then (err sqlite_error, released w.next pool)
    else (
      ok (record {
        sdb = w.next;
        keeper = pool.next;
        dsn = dsn_of w.seq;
        is_closed = false;
        source_path = [];
        engine_size = 0;
        info = no_info;
      }),
      opened pool,
    )

-- `Close`.
unfoldable pub close : Live → Handles → Live × Handles
close db w =
    if db.is_closed
    then (db, w)
    else (record db { is_closed = true }, released db.sdb (released db.keeper w))

-- Behind `New`: what `loadFromFile` returned is kept, and the blob restored into the live database,
-- which `load_blob_into` answers for.
unfoldable pub open_new :
    Text
    → Result Loaded
    → (Bytes → Text → Result (Unit {0}))
    → Live
    → Handles
    → Result Live × Handles
unfolding close
open_new path (err e) load_blob_into db w = (err e, (close db w).1)
open_new path (ok l) load_blob_into db₀ w =
    let db = record db₀ { source_path = path; engine_size = l.engine_size; info = l.info } in
    elim l.blob [
      | none ↦ (ok db, w)
      | some blob ↦ elim (load_blob_into blob db.dsn) [
        | err e ↦ (err e, (close db w).1)
        | ok _ ↦ (ok db, w)
      ]
    ]

unfoldable pub open_with :
    Text
    → Result Loaded
    → (Bytes → Text → Result (Unit {0}))
    → Result Live × Handles
    → Result Live × Handles
unfolding open_new
open_with path loaded load_blob_into (err e, w) = (err e, w)
open_with path loaded load_blob_into (ok db, w) = open_new path loaded load_blob_into db w

-- `Open`, with the answer of `loadFromFile`.
unfoldable pub open_live :
    Bool
    → Bool
    → Text
    → Result Loaded
    → (Bytes → Text → Result (Unit {0}))
    → Handles
    → Result Live × Handles
unfolding open_with new_live_db
open_live open_fails conn_fails path loaded load_blob_into w =
    open_with path loaded load_blob_into (new_live_db open_fails conn_fails w)

-- `pooled`.
unfoldable pub pooled : Live → Result ℕ
pooled db = if db.is_closed then err closed else ok db.sdb

-- `ExecContext` and `QueryContext`: the call is database/sql's.
unfoldable pub one_shot : {A : Type 0} → Live → (ℕ → Result A) → Result A
unfolding pooled
one_shot db call = do sdb ← pooled db; call sdb

-- `QueryRowContext`, which does not look whether the DB is closed.
abbrev pub query_row_context : {A : Type 0} → Live → (ℕ → A) → A
query_row_context db call = call db.sdb

-- `Info`.
abbrev pub info_of : Live → Info
info_of db = db.info

-- `Session`.
pub record Session : Type 0 where
  pub conn : ℕ
  pub is_closed : Bool

-- `DB.Session`.
unfoldable pub session : Live → Bool → Handles → Result Session × Handles
unfolding pooled
session db conn_fails w = elim (pooled db) [
  | err e ↦ (err e, w)
  | ok sdb ↦
      if conn_fails
      then (err sqlite_error, w)
      else (ok (record { conn = w.next; is_closed = false }), opened w)
]

-- `Session.Close`.
unfoldable pub close_session : Session → Handles → Session × Handles
close_session s w =
    if s.is_closed then (s, w) else (record s { is_closed = true }, released s.conn w)

-- `Session.ExecContext`, `QueryContext`, `QueryRowContext` and `PrepareContext`, and those without a
-- context, which pass the call on.
abbrev pub on_session : {A : Type 0} → Session → (ℕ → A) → A
on_session s call = call s.conn
