-- ===== src/Engine/Db/Laws.antt =====
-- engine/engine.go and engine/persist.go: saving, then opening or loading.
use execdb.Prelude.{
  ℕ, ◌^◌, ◌≤◌, ◌<◌, Bool, false, none, some, [], ◌∷◌, Text, Bytes, length, length-take_of_le,
  Option-cases, Bool-cases, if◌then◌else◌, eq_text_iff, ◌≡◌, ◌≢◌, inl, inr, refl, sym, ap, ◌∙◌,
  arith,
}
use execdb.Engine.Errors.{Result, ok, err, sqlite_error, ◌>>=◌, >>=-eq-ok}
use execdb.Engine.Files.{Files}
use execdb.Engine.Footer.{
  max_data_size, image_of, written_info, inspect_bytes-image_of, image_of_parts, length-image_of,
}
use execdb.Engine.Atomic.{write_image_atomic}
use execdb.Engine.Atomic.Laws.{write_image_atomic-target}
use execdb.Engine.Atomic as Atomic
use execdb.Engine.Sqlite.{Sqlite}
use execdb.Engine.Scratch.{load_blob_into}
use execdb.Engine.Scratch.Laws.{any_fault, fails_early, load_blob_into-serialize}
use execdb.Engine.Scratch as Scratch
use execdb.Engine.Db.{
  Db, Loaded, read_engine_prefix, inspect, read_at, loaded_from, load_from_file, open_loaded,
  open_db, serialize_barrier, image, mode_of, write_snapshot, snapshot,
}

-- What `loadFromFile` gives for a file that holds an image.
abbrev pub loaded_image : Text → Bytes → Bytes → Loaded
loaded_image path e d = record {
  info = record (written_info e d) { path = path };
  engine_size = length e;
  blob = some d;
}

read_at-image_of :
    (e d : Bytes)
    → length e < 2 ^ 62
    → length d ≤ max_data_size
    → read_at (image_of e d) (length e) (length d) ≡ ok d
unfolding read_at
read_at-image_of e d he hd = rw ((image_of_parts e d).1) (ground (arith, length-image_of e d he hd))

pub load_from_file-image_of :
    (fs : Files) (path : Text) (e d : Bytes) (mode : ℕ)
    → length e < 2 ^ 62
    → length d ≤ max_data_size
    → fs path ≡ some (record { content = image_of e d; mode = mode })
    → load_from_file fs path ≡ ok (loaded_image path e d)
unfolding load_from_file inspect loaded_from
load_from_file-image_of fs path e d mode he hd h =
    rw (h, load_from_file) (rw (inspect_bytes-image_of e d he hd) (rw (read_at-image_of e d he hd)))

pub read_engine_prefix-image_of :
    (fs : Files) (path : Text) (e d : Bytes) (mode : ℕ)
    → length e < 2 ^ 62
    → length d ≤ max_data_size
    → path ≢ []
    → fs path ≡ some (record { content = image_of e d; mode = mode })
    → read_engine_prefix fs path (length e) ≡ ok e
unfolding read_engine_prefix
read_engine_prefix-image_of fs path [] d mode he hd ne h = refl
read_engine_prefix-image_of fs path (b ∷ e) d mode he hd ne h =
    ground
      (arith, eq_text_iff path [], length-image_of (b ∷ e) d he hd, (image_of_parts (b ∷ e) d).0)

-- The engine's bytes are at most as many as the DB recorded.
pub length-read_engine_prefix :
    (fs : Files) (path : Text) (n : ℕ) {e : Bytes}
    → read_engine_prefix fs path n ≡ ok e
    → length e ≤ n
unfolding read_engine_prefix
length-read_engine_prefix fs path n h = elim (Option-cases (fs path)) [
  | inl gone ↦ ground arith
  | inr (f, found) ↦ ground (arith, length-take_of_le n f.content)
]

-- The DB that an image with content `c`, engine `e` and blob `d` opens as.
abbrev pub opened : {C : Type 0} → Text → C → Bytes → Bytes → Db C
opened path c e d = record {
  content = c;
  is_closed = false;
  source_path = path;
  engine_size = length e;
  info = record (written_info e d) { path = path };
}

-- What `Open` returns of this DB, by the calls of its `loadBlobInto` that fail.
abbrev pub unless_fault : {C : Type 0} → Scratch.Faults → Db C → Result (Db C)
unless_fault f db = if any_fault f then err sqlite_error else ok db

module _ (s : Sqlite) where
  open s use {Content, serialize, deserialize, restores}

  pub serialize_barrier-eq_ok :
      (db : Db Content) (is_busy : Bool) {d : Bytes}
      → serialize_barrier s db is_busy ≡ ok d
      → serialize db.content ≡ some d
  unfolding serialize_barrier
  serialize_barrier-eq_ok db is_busy h = elim (Option-cases (serialize db.content)) [
    | inl failed ↦ ground arith
    | inr ([], found) ↦ ground arith
    | inr (b ∷ bs, found) ↦ ground arith
  ]

  pub image-eq_ok :
      (db : Db Content) (fs : Files) (is_busy : Bool) {e d : Bytes}
      → image s db fs is_busy ≡ ok (e, d)
      → (serialize db.content ≡ some d)
        × (read_engine_prefix fs db.source_path db.engine_size ≡ ok e)
  unfolding image
  image-eq_ok db fs is_busy h =
      let (blob, serialized, later) = >>=-eq-ok (serialize_barrier s db is_busy) _ h in
      let (prefix, read, same) =
        >>=-eq-ok (read_engine_prefix fs db.source_path db.engine_size) _ later in
      (serialize_barrier-eq_ok db is_busy (cc), cc)

  open_loaded-image :
      (path : Text) (c : Content) (e d : Bytes) (lf : Scratch.Faults)
      → serialize c ≡ some d
      → open_loaded s path (loaded_image path e d) lf ≡ unless_fault lf (opened path c e d)
  unfolding open_loaded
  open_loaded-image path c e d lf h =
      let (result, dst) = load_blob_into-serialize s c d s.empty lf [] h in
      elim (Bool-cases (fails_early lf)) [
        | inl p ↦ ground (arith, result, p)
        | inr p ↦ ground (arith, result, dst, p)
      ]

  -- A file that holds the image of a content opens as a DB with that content, whose later snapshots
  -- carry the same engine, unless a call of `loadBlobInto` fails.
  pub open_db-image_of :
      (fs : Files) (path : Text) (c : Content) (e d : Bytes) (mode : ℕ) (lf : Scratch.Faults)
      → length e < 2 ^ 62
      → length d ≤ max_data_size
      → serialize c ≡ some d
      → fs path ≡ some (record { content = image_of e d; mode = mode })
      → open_db s fs path lf ≡ unless_fault lf (opened path c e d)
  unfolding open_db
  open_db-image_of fs path c e d mode lf he hd sc h =
      ap (λ r. r >>= λ l. open_loaded s path l lf)
        (load_from_file-image_of fs path e d mode he hd h)
      ∙ open_loaded-image path c e d lf sc

  -- A snapshot that succeeds has written the image of the content and of the engine's bytes.
  pub snapshot-writes :
      (db : Db Content) (fs : Files) (path tmp : Text) (is_busy : Bool) (f : Atomic.Faults)
      → tmp ≢ path
      → fs tmp ≡ none
      → (snapshot s db fs path tmp is_busy f).0 ≡ ok tt
      → (e : Bytes) × (d : Bytes) × (image s db fs is_busy ≡ ok (e, d))
        × ((snapshot s db fs path tmp is_busy f).1 path
            ≡ some (record { content = image_of e d; mode = mode_of e }))
  unfolding snapshot
  snapshot-writes db fs path tmp is_busy f ne fresh h = go (image s db fs is_busy) refl
    where
      go :
          (r : Result (Bytes × Bytes))
          → image s db fs is_busy ≡ r
          → (e : Bytes) × (d : Bytes) × (image s db fs is_busy ≡ ok (e, d))
            × ((snapshot s db fs path tmp is_busy f).1 path
                ≡ some (record { content = image_of e d; mode = mode_of e }))
      go (err x) q = cc (h, ap (λ r. (write_snapshot fs path tmp f r).0) q)
      go (ok (e, d)) q =
          let same : snapshot s db fs path tmp is_busy f
              ≡ write_image_atomic fs path tmp e d (mode_of e) f =
            ap (write_snapshot fs path tmp f) q in
          (
            e,
            d,
            q,
            ap (λ r. r.1 path) same
                ∙ write_image_atomic-target fs path tmp e d (mode_of e) f ne fresh
                    (sym (ap (λ r. r.0) same) ∙ h),
          )

  -- After a snapshot that succeeds, of a database whose serialization is within the limit and whose
  -- engine has fewer than 2 ^ 62 bytes, to a path that is not empty, with a temporary file that is
  -- new and not the target, opening the file gives a DB with the content that was saved, from which
  -- a later snapshot takes the same engine bytes as this one took, unless a call of its
  -- `loadBlobInto` fails, which makes it an error.
  pub open_db-snapshot :
      (db : Db Content) (fs : Files) (path tmp : Text) (is_busy : Bool) (f : Atomic.Faults)
      (lf : Scratch.Faults) (d : Bytes)
      → serialize db.content ≡ some d
      → length d ≤ max_data_size
      → db.engine_size < 2 ^ 62
      → path ≢ []
      → tmp ≢ path
      → fs tmp ≡ none
      → (snapshot s db fs path tmp is_busy f).0 ≡ ok tt
      → (e : Bytes) × (read_engine_prefix fs db.source_path db.engine_size ≡ ok e)
        × (open_db s (snapshot s db fs path tmp is_busy f).1 path lf
            ≡ unless_fault lf (opened path db.content e d))
        × (read_engine_prefix (snapshot s db fs path tmp is_busy f).1 path (length e) ≡ ok e)
  open_db-snapshot db fs path tmp is_busy f lf d sd hd hn np ne fresh h =
      let (e, d', img, saved) = snapshot-writes db fs path tmp is_busy f ne fresh h in
      let (sd', read) = image-eq_ok db fs is_busy img in
      let he : length e < 2 ^ 62 =
        omega (arith, length-read_engine_prefix fs db.source_path db.engine_size read) in
      let same : d' ≡ d = cc in
      let saved' = rw same at saved in
      (
        e,
        read,
        open_db-image_of (snapshot s db fs path tmp is_busy f).1 path db.content e d (mode_of e) lf
            he hd sd saved',
        read_engine_prefix-image_of (snapshot s db fs path tmp is_busy f).1 path e d (mode_of e) he
            hd np saved',
      )
