-- ===== src/Engine/Scratch.antt =====
-- engine/serialize.go and engine/backup.go: how a blob gets into the live database, through a scratch
-- database and a backup, with what is open on the way.
pub mod Laws
use execdb.Prelude.{
  Bool, true, false, ◌||◌, Option, none, some, if◌then◌else◌, List, [], ◌∷◌, Bytes,
}
use execdb.Engine.Errors.{Result, ok, err, sqlite_error}
use execdb.Engine.Sqlite.{Sqlite}

-- What is open for a while: the scratch database, its connection, and the backup from one database to
-- the other.
pub data Resource : Type 0 where
  scratch conn backup : Resource

unfoldable pub is_same : Resource → Resource → Bool
is_same scratch scratch = true
is_same conn conn = true
is_same backup backup = true
is_same _ _ = false

-- What is open behind a `Close` or a `Finish`: the last one of its kind is not.
unfoldable pub release : Resource → List Resource → List Resource
unfolding is_same
release r [] = []
release r (q ∷ held) = if is_same r q then held else q ∷ release r held

-- How `Step(-1)` ends: with an error, with pages left, or with all of them copied.
pub data Stepped : Type 0 where
  step_fails more all : Stepped

abbrev pub is_incomplete : Stepped → Bool
is_incomplete step_fails = true
is_incomplete more = true
is_incomplete all = false

-- Which of the calls fail. A destination that another session writes to is busy: then `NewBackup` or
-- `Step` fails.
pub record Faults : Type 0 where
  pub open_scratch : Bool
  pub open_conn : Bool
  pub no_deserializer : Bool
  pub no_backupper : Bool
  pub new_backup : Bool
  pub step : Stepped
  pub finish : Bool

abbrev pub no_faults : Faults
no_faults = record {
  open_scratch = false;
  open_conn = false;
  no_deserializer = false;
  no_backupper = false;
  new_backup = false;
  step = all;
  finish = false;
}

-- The result, the destination, and what is open.
pub record Outcome (Content : Type 0) : Type 0 where
  pub result : Result (Unit {0})
  pub dst : Content
  pub held : List Resource

module _ {Content : Type 0} where
  abbrev pub stopped : Content → List Resource → Outcome Content
  stopped dst held = record { result = err sqlite_error; dst = dst; held = held }

  -- A deferred `Close`, when the function returns.
  unfoldable pub deferred : Resource → Outcome Content → Outcome Content
  unfolding release
  deferred r out = record out { held = release r out.held }

  -- From the `Step` on. A backup that copied all the pages has committed them; one that did not
  -- changes nothing. `Finish` releases the backup, also where it reports an error.
  unfoldable pub finish_backup :
      Content → Content → Stepped → Bool → List Resource → Outcome Content
  unfolding release
  finish_backup src dst step_fails fails held = stopped dst held
  finish_backup src dst more fails held = stopped dst held
  finish_backup src dst all fails held = record {
    result = if fails then err sqlite_error else ok tt;
    dst = src;
    held = release backup held;
  }

  -- `backupInto`.
  unfoldable pub backup_into : Content → Content → Faults → List Resource → Outcome Content
  unfolding finish_backup
  backup_into src dst f held =
      if f.no_backupper
      then stopped dst held
      else if f.new_backup
      then stopped dst held
      else finish_backup src dst f.step f.finish (backup ∷ held)

module _ (s : Sqlite) where
  open s use {Content, deserialize}

  -- `deserializeInto`, of a connection whose content it replaces.
  unfoldable pub deserialize_into : Bytes → Faults → Result Content
  deserialize_into blob f =
      if f.no_deserializer
      then err sqlite_error
      else elim (deserialize blob) [ none ↦ err sqlite_error | some c ↦ ok c ]

  -- From the deserialization on.
  unfoldable pub load_through : Content → Faults → Result Content → List Resource → Outcome Content
  unfolding backup_into
  load_through dst f (err e) held = record { result = err e; dst = dst; held = held }
  load_through dst f (ok src) held = backup_into src dst f held

  -- `loadBlobInto`, with what is open when it is called.
  unfoldable pub load_blob_into : Bytes → Content → Faults → List Resource → Outcome Content
  unfolding deserialize_into load_through deferred
  load_blob_into blob dst f held =
      let connected : Outcome Content =
        if f.open_conn
        then stopped dst (scratch ∷ held)
        else deferred conn (load_through dst f (deserialize_into blob f) (conn ∷ scratch ∷ held)) in
      if f.open_scratch then stopped dst held else deferred scratch connected
