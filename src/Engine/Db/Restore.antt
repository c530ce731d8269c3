-- ===== src/Engine/Db/Restore.antt =====
-- engine/persist.go: `Load` of what `Snapshot` wrote.
use execdb.Prelude.{
  ◌^◌, ◌≤◌, ◌<◌, Bool, false, none, some, Text, Bytes, length, ◌≡◌, ◌≢◌, ap, ◌∙◌, arith,
}
use execdb.Engine.Errors.{Result, ok, ◌>>=◌}
use execdb.Engine.Files.{File, Files}
use execdb.Engine.Footer.{Info, max_data_size, written_info, image_of, inspect_bytes-image_of}
use execdb.Engine.Atomic as Atomic
use execdb.Engine.Sqlite.{Sqlite}
use execdb.Engine.Db.{Db, inspect, read_engine_prefix, snapshot, load, load_found}
use execdb.Engine.Scratch as Scratch
use execdb.Engine.Db.Loads.{loads_as, apply_loaded_data-serialize}
use execdb.Engine.Db.Laws.{
  loaded_image, load_from_file-image_of, length-read_engine_prefix, image-eq_ok, snapshot-writes,
}

-- The `Info` of an image at a path.
abbrev pub info_at : Text → Bytes → Bytes → Info
info_at path e d = record (written_info e d) { path = path }

inspect-image_of :
    (path : Text) (e d : Bytes)
    → length e < 2 ^ 62
    → length d ≤ max_data_size
    → inspect path (image_of e d) ≡ ok (info_at path e d)
unfolding inspect
inspect-image_of path e d he hd =
    let named : Info → Result Info = λ info. ok (record info { path = path }) in
    ap (λ r. r >>= named) (inspect_bytes-image_of e d he hd)

module _ (s : Sqlite) where
  load_found-image :
      (lf : Scratch.Faults) (other : Db s.Content) (path : Text) (c : s.Content) (e d : Bytes)
      → s.serialize c ≡ some d
      → other.is_closed ≡ false
      → load_found s other lf (ok (loaded_image path e d))
        ≡ loads_as s lf other (info_at path e d) c
  unfolding load_found
  load_found-image lf other path c e d h alive =
      apply_loaded_data-serialize s lf other (info_at path e d) c d h alive

  -- A snapshot that succeeds: what `Inspect` says of the file, and what a load of it into a DB that
  -- is open does.
  pub load-snapshot :
      (db other : Db s.Content) (fs : Files) (path tmp : Text) (is_busy : Bool) (f : Atomic.Faults)
      (lf : Scratch.Faults) (d : Bytes)
      → s.serialize db.content ≡ some d
      → length d ≤ max_data_size
      → db.engine_size < 2 ^ 62
      → tmp ≢ path
      → fs tmp ≡ none
      → other.is_closed ≡ false
      → (snapshot s db fs path tmp is_busy f).0 ≡ ok tt
      → (e : Bytes) × (file : File) × (read_engine_prefix fs db.source_path db.engine_size ≡ ok e)
        × ((snapshot s db fs path tmp is_busy f).1 path ≡ some file)
        × (inspect path file.content ≡ ok (info_at path e d))
        × (load s other (snapshot s db fs path tmp is_busy f).1 path lf
            ≡ loads_as s lf other (info_at path e d) db.content)
  unfolding load
  load-snapshot db other fs path tmp is_busy f lf d sd hd hn ne fresh alive h =
      let (e, d', img, saved) = snapshot-writes s db fs path tmp is_busy f ne fresh h in
      let (sd', read) = image-eq_ok s db fs is_busy img in
      let he : length e < 2 ^ 62 =
        omega (arith, length-read_engine_prefix fs db.source_path db.engine_size read) in
      let same : d' ≡ d = cc in
      let saved' = rw same at saved in
      let found =
        load_from_file-image_of (snapshot s db fs path tmp is_busy f).1 path e d _ he hd saved' in
      (
        e,
        _,
        read,
        saved',
        inspect-image_of path e d he hd,
        ap (load_found s other lf) found ∙ load_found-image lf other path db.content e d sd alive,
      )
