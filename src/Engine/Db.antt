-- ===== src/Engine/Db.antt =====
-- engine/engine.go and engine/persist.go: a DB, its persistence and its life cycle. SQLite is a
-- parameter, Engine/Sqlite: the content of the live database, and how it is serialized and deserialized.
pub mod Laws
pub mod Loads
pub mod Restore
pub mod Restart
use execdb.Prelude.{
  ℕ, ◌+◌, Bool, true, false, not, ◌||◌, Option, none, some, ◌==◌, ltb, if◌then◌else◌, List, [], ◌∷◌,
  Text, Bytes, take, drop, length, eq_text, ◌≡◌,
}
use execdb.Engine.Errors.{
  Result, ok, err, ◌>>=◌, closed, no_data, too_large, busy, not_overwritable, os_error,
  sqlite_error,
}
use execdb.Engine.Files.{File, Files}
use execdb.Engine.Sqlite.{Sqlite}
use execdb.Engine.Scratch.{load_blob_into}
use execdb.Engine.Scratch as Scratch
use execdb.Engine.Footer.{Info, no_info, decode_footer, footer_of, inspect_bytes, image_of}
use execdb.Engine.Atomic.{write_image_atomic}
use execdb.Engine.Atomic as Atomic
use execdb.Engine.Overwrite.{
  looks_like_go_run_temp_binary, overwrite_self, cleanup_orphaned_old_self,
}
use execdb.Engine.Overwrite as Overwrite

pub record Db (Content : Type 0) : Type 0 where
  pub content : Content
  pub is_closed : Bool
  pub source_path : Text
  pub engine_size : ℕ
  pub info : Info

-- `readEnginePrefix`.
unfoldable pub read_engine_prefix : Files → Text → ℕ → Result Bytes
unfolding eq_text
read_engine_prefix fs source_path engine_size =
    if engine_size == 0 || eq_text source_path [] then ok [] else elim (fs source_path) [
      | none ↦ err os_error
      | some f ↦
          if ltb (length f.content) engine_size
          then err os_error
          else ok (take engine_size f.content)
    ]

-- `Inspect` on a file that is there; it fills in the path.
unfoldable pub inspect : Text → Bytes → Result Info
unfolding inspect_bytes
inspect path content = do info ← inspect_bytes content; ok (record info { path = path })

-- What `loadFromFile` returns beside its error.
pub record Loaded : Type 0 where
  pub info : Info
  pub engine_size : ℕ
  pub blob : Option Bytes

-- The bytes that `ReadAt` reads at an offset, if there are as many.
unfoldable pub read_at : Bytes → ℕ → ℕ → Result Bytes
read_at content offset n =
    if ltb (length content) (offset + n) then err os_error else ok (take n (drop offset content))

unfoldable pub loaded_from : Info → Bytes → Result Loaded
unfolding read_at
loaded_from info content =
    if not info.has_data
    then ok (record { info = info; engine_size = length content; blob = none })
    else (do
      blob ← read_at content info.data_offset info.data_length
      ok (record { info = info; engine_size = info.data_offset; blob = some blob }))

unfoldable pub load_from_file : Files → Text → Result Loaded
unfolding inspect loaded_from
load_from_file fs path = elim (fs path) [
  | none ↦ ok (record { info = record no_info { path = path }; engine_size = 0; blob = none })
  | some f ↦ do info ← inspect path f.content; loaded_from info f.content
]

-- 0755 or 0644.
abbrev pub mode_of : Bytes → ℕ
mode_of engine_bytes = if ltb 0 (length engine_bytes) then 493 else 420

-- `Snapshot`, with the answer of `image`.
unfoldable pub write_snapshot :
    Files → Text → Text → Atomic.Faults → Result (Bytes × Bytes) → Result (Unit {0}) × Files
unfolding write_image_atomic
write_snapshot fs path tmp f (err e) = (err e, fs)
write_snapshot fs path tmp f (ok (engine_bytes, blob)) =
    write_image_atomic fs path tmp engine_bytes blob (mode_of engine_bytes) f

module _ (s : Sqlite) where
  open s use {Content, empty, serialize, deserialize}

  abbrev pub new_db : Db Content
  new_db = record {
    content = empty;
    is_closed = false;
    source_path = [];
    engine_size = 0;
    info = no_info;
  }

  unfoldable pub open_loaded : Text → Loaded → Scratch.Faults → Result (Db Content)
  unfolding load_blob_into
  open_loaded path l f =
      let db : Content → Db Content = λ c. record {
        content = c;
        is_closed = false;
        source_path = path;
        engine_size = l.engine_size;
        info = l.info;
      } in
      elim l.blob [
        | none ↦ ok (db empty)
        | some blob ↦
            let out = load_blob_into s blob empty f [] in
            elim out.result [ err e ↦ err e | ok _ ↦ ok (db out.dst) ]
      ]

  -- `Open`, with the faults of `loadBlobInto`.
  unfoldable pub open_db : Files → Text → Scratch.Faults → Result (Db Content)
  unfolding load_from_file open_loaded
  open_db fs path f = do l ← load_from_file fs path; open_loaded path l f

  -- `OpenSelf`: the sidecar of an earlier `Overwrite` is removed first.
  unfoldable pub open_self : Files → Text → Bool → Scratch.Faults → Result (Db Content) × Files
  unfolding open_db cleanup_orphaned_old_self
  open_self fs self_path remove_fails f =
      let clean = cleanup_orphaned_old_self fs self_path remove_fails in
      (open_db clean self_path f, clean)

  -- `serializeBarrier`; `is_busy` says that BEGIN IMMEDIATE fails.
  unfoldable pub serialize_barrier : Db Content → Bool → Result Bytes
  serialize_barrier db is_busy =
      if db.is_closed
      then err closed
      else if is_busy
      then err busy
      else elim (serialize db.content) [
        | none ↦ err sqlite_error
        | some blob ↦ elim blob [ [] ↦ err too_large | b ∷ bs ↦ ok (b ∷ bs) ]
      ]

  -- `image`: the blob first, then the engine's bytes.
  unfoldable pub image : Db Content → Files → Bool → Result (Bytes × Bytes)
  unfolding serialize_barrier read_engine_prefix
  image db fs is_busy = do
    blob ← serialize_barrier db is_busy
    engine_bytes ← read_engine_prefix fs db.source_path db.engine_size
    ok (engine_bytes, blob)

  -- `Snapshot`.
  unfoldable pub snapshot :
      Db Content → Files → Text → Text → Bool → Atomic.Faults → Result (Unit {0}) × Files
  unfolding image write_snapshot
  snapshot db fs path tmp is_busy f = write_snapshot fs path tmp f (image db fs is_busy)

  -- `SnapshotTo`, as the bytes that the writer is given.
  unfoldable pub snapshot_to : Db Content → Files → Bool → Result Bytes
  unfolding image image_of
  snapshot_to db fs is_busy = do
    (engine_bytes, blob) ← image db fs is_busy
    ok (image_of engine_bytes blob)

  -- Behind `loadBlobInto`, whose result and destination these are: a load that fails may have
  -- replaced the content, but records no `Info`.
  abbrev pub recorded :
      Db Content → Info → Result (Unit {0}) → Content → Result (Unit {0}) × Db Content
  recorded db info (err e) c = (err e, record db { content = c })
  recorded db info (ok _) c = (ok tt, record db { content = c; info = info })

  -- `applyLoadedData`.
  unfoldable pub apply_loaded_data :
      Db Content → Info → Bytes → Scratch.Faults → Result (Unit {0}) × Db Content
  unfolding load_blob_into
  apply_loaded_data db info blob f =
      let out = load_blob_into s blob db.content f [] in
      if db.is_closed then (err closed, db) else recorded db info out.result out.dst

  -- `Load`, with the answer of `loadFromFile`.
  unfoldable pub load_found :
      Db Content → Scratch.Faults → Result Loaded → Result (Unit {0}) × Db Content
  unfolding apply_loaded_data
  load_found db f (err e) = (err e, db)
  load_found db f (ok l) = elim l.blob [
    | none ↦ (err no_data, db)
    | some blob ↦ apply_loaded_data db l.info blob f
  ]

  unfoldable pub load : Db Content → Files → Text → Scratch.Faults → Result (Unit {0}) × Db Content
  unfolding load_from_file load_found
  load db fs path f = load_found db f (load_from_file fs path)

  -- `LoadFrom`, with the answer of `decodeFooter` on all that the reader gives.
  unfoldable pub load_decoded :
      Db Content → Bytes → Scratch.Faults → Result Info → Result (Unit {0}) × Db Content
  unfolding apply_loaded_data
  load_decoded db buf f (err e) = (err e, db)
  load_decoded db buf f (ok info) =
      if not info.has_data
      then (err no_data, db)
      else apply_loaded_data db info (take info.data_length (drop info.data_offset buf)) f

  unfoldable pub load_from : Db Content → Bytes → Scratch.Faults → Result (Unit {0}) × Db Content
  unfolding inspect_bytes load_decoded
  load_from db buf f = load_decoded db buf f (inspect_bytes buf)

  -- `Overwrite`, from the answers of `os.Executable`, `os.TempDir` and `filepath.Rel`.
  unfoldable pub overwrite_found :
      Db Content → Files → Text → Bytes → Bool → Overwrite.Faults → Result (Unit {0}) × Files
  unfolding inspect serialize_barrier read_engine_prefix overwrite_self
  overwrite_found db fs self content is_busy f =
      let prepared : Result (Bytes × Bytes) = (do
        info ← inspect self content
        blob ← serialize_barrier db is_busy
        engine_bytes ←
            read_engine_prefix fs self (if info.has_data then info.data_offset else length content)
        ok (engine_bytes, blob)) in
      elim prepared [
        | err e ↦ (err e, fs)
        | ok (engine_bytes, blob) ↦
            let run = overwrite_self fs self engine_bytes blob f in (run.result, run.last)
      ]

  unfoldable pub overwrite :
      Db Content
      → Files
      → Text
      → Text
      → Option Text
      → Bool
      → Overwrite.Faults
      → Result (Unit {0}) × Files
  unfolding looks_like_go_run_temp_binary overwrite_found
  overwrite db fs self tmp rel is_busy f =
      let found : Result (Unit {0}) × Files = elim (fs self) [
        | none ↦ (err os_error, fs)
        | some file ↦ overwrite_found db fs self file.content is_busy f
      ] in
      if looks_like_go_run_temp_binary tmp rel then (err not_overwritable, fs) else found

  -- `Close`.
  unfoldable pub close : Db Content → Db Content
  close db = if db.is_closed then db else record db { is_closed = true }

  -- `pooled`, which every statement and `Session` begin with.
  unfoldable pub pooled : Db Content → Result (Unit {0})
  pooled db = if db.is_closed then err closed else ok tt
