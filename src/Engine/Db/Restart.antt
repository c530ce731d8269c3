-- ===== src/Engine/Db/Restart.antt =====
-- engine/persist.go and engine/engine.go: `Overwrite`, and the `OpenSelf` of the next start.
use execdb.Prelude.{
  ℕ, ◌^◌, ◌≤◌, ◌<◌, Bool, Option, some, Text, Bytes, length, if◌then◌else◌, ◌≡◌, refl, sym, ap, ◌∙◌,
  arith, inl, inr, length-take_of_le,
}
use execdb.Engine.Errors.{Result, ok, err, ◌>>=◌, >>=-eq-ok}
use execdb.Engine.Files.{File, Files}
use execdb.Engine.Footer.{Info, max_data_size, image_of}
use execdb.Engine.Overwrite.{overwrite_self, cleanup_orphaned_old_self}
use execdb.Engine.Overwrite as Overwrite
use execdb.Engine.Overwrite.Laws.{overwrite_self-Survives, cleanup-keeps_self, file_of}
use execdb.Engine.Sqlite.{Sqlite}
use execdb.Engine.Db.{
  Db, read_engine_prefix, inspect, serialize_barrier, overwrite_found, overwrite, open_self,
}
use execdb.Engine.Scratch as Scratch
use execdb.Engine.Db.Laws.{opened, unless_fault, serialize_barrier-eq_ok, open_db-image_of}

-- How many bytes of an executable are the engine.
abbrev pub engine_length : Info → Bytes → ℕ
engine_length info content = if info.has_data then info.data_offset else length content

-- The engine's bytes are of the file.
read_engine_prefix-within :
    (fs : Files) (path : Text) (n : ℕ) (file : File) {e : Bytes}
    → fs path ≡ some file
    → read_engine_prefix fs path n ≡ ok e
    → length e ≤ length file.content
unfolding read_engine_prefix
read_engine_prefix-within fs path n file h k =
    ground (arith, h, k, length-take_of_le n file.content)

module _ (s : Sqlite) where
  overwrite-found :
      (db : Db s.Content) (fs : Files) (self tmp : Text) (rel : Option Text) (is_busy : Bool)
      (f : Overwrite.Faults) (file : File)
      → fs self ≡ some file
      → (overwrite s db fs self tmp rel is_busy f).0 ≡ ok tt
      → overwrite s db fs self tmp rel is_busy f
        ≡ overwrite_found s db fs self file.content is_busy f
  unfolding overwrite
  overwrite-found db fs self tmp rel is_busy f file h e = ground (arith, h, e)

  -- What `Overwrite` has read when it writes.
  abbrev prepared : Db s.Content → Files → Text → Bytes → Bool → Result (Bytes × Bytes)
  prepared db fs self content is_busy = do
    info ← inspect self content
    blob ← serialize_barrier s db is_busy
    engine_bytes ← read_engine_prefix fs self (engine_length info content)
    ok (engine_bytes, blob)

  abbrev written :
      Files → Text → Overwrite.Faults → Result (Bytes × Bytes) → Result (Unit {0}) × Files
  written fs self f (err e) = (err e, fs)
  written fs self f (ok (engine_bytes, blob)) =
      let run = overwrite_self fs self engine_bytes blob f in (run.result, run.last)

  overwrite_found-written :
      (db : Db s.Content) (fs : Files) (self : Text) (content : Bytes) (is_busy : Bool)
      (f : Overwrite.Faults)
      → overwrite_found s db fs self content is_busy f
        ≡ written fs self f (prepared db fs self content is_busy)
  unfolding overwrite_found
  overwrite_found-written db fs self content is_busy f = refl

  prepared-eq_ok :
      (db : Db s.Content) (fs : Files) (self : Text) (content : Bytes) (is_busy : Bool)
      {e d : Bytes}
      → prepared db fs self content is_busy ≡ ok (e, d)
      → (info : Info) × (inspect self content ≡ ok info)
        × (s.serialize db.content ≡ some d)
        × (read_engine_prefix fs self (engine_length info content) ≡ ok e)
  prepared-eq_ok db fs self content is_busy h =
      let (info, inspected, behind) = >>=-eq-ok (inspect self content) _ h in
      let (blob, serialized, later) = >>=-eq-ok (serialize_barrier s db is_busy) _ behind in
      let (prefix, read, same) =
        >>=-eq-ok (read_engine_prefix fs self (engine_length info content)) _ later in
      (info, inspected, serialize_barrier-eq_ok s db is_busy (cc), cc)

  overwrite_self-last :
      (fs : Files) (self : Text) (orig : File) (engine_bytes blob : Bytes) (f : Overwrite.Faults)
      → fs self ≡ some orig
      → (overwrite_self fs self engine_bytes blob f).result ≡ ok tt
      → (overwrite_self fs self engine_bytes blob f).last self
        ≡ some (file_of (image_of engine_bytes blob) 493)
  overwrite_self-last fs self orig engine_bytes blob f h e =
      elim ((overwrite_self-Survives fs self orig engine_bytes blob f h).1) [
        | inl (same, last) ↦ last
        | inr (failed, rest) ↦ cc
      ]

  -- An overwrite that succeeds has put the image of the content and of the engine's bytes in the
  -- executable's place.
  overwrite-writes :
      (db : Db s.Content) (fs : Files) (self tmp : Text) (rel : Option Text) (is_busy : Bool)
      (f : Overwrite.Faults) (file : File)
      → fs self ≡ some file
      → (overwrite s db fs self tmp rel is_busy f).0 ≡ ok tt
      → (e : Bytes) × (d : Bytes) × (info : Info) × (inspect self file.content ≡ ok info)
        × (s.serialize db.content ≡ some d)
        × (read_engine_prefix fs self (engine_length info file.content) ≡ ok e)
        × ((overwrite s db fs self tmp rel is_busy f).1 self ≡ some (file_of (image_of e d) 493))
  overwrite-writes db fs self tmp rel is_busy f file h k =
      go (prepared db fs self file.content is_busy) refl
    where
      same :
          (r : Result (Bytes × Bytes))
          → prepared db fs self file.content is_busy ≡ r
          → overwrite s db fs self tmp rel is_busy f ≡ written fs self f r
      same r q =
          overwrite-found db fs self tmp rel is_busy f file h k
          ∙ overwrite_found-written db fs self file.content is_busy f
          ∙ ap (written fs self f) q

      go :
          (r : Result (Bytes × Bytes))
          → prepared db fs self file.content is_busy ≡ r
          → (e : Bytes) × (d : Bytes) × (info : Info) × (inspect self file.content ≡ ok info)
            × (s.serialize db.content ≡ some d)
            × (read_engine_prefix fs self (engine_length info file.content) ≡ ok e)
            × ((overwrite s db fs self tmp rel is_busy f).1 self
                ≡ some (file_of (image_of e d) 493))
      go (err x) q = let p = ap (λ r. r.0) (same (err x) q) in cc
      go (ok (e, d)) q =
          let (info, inspected, serialized, read) =
            prepared-eq_ok db fs self file.content is_busy q in
          let p = same (ok (e, d)) q in
          let done = sym (ap (λ r. r.0) p) ∙ k in
          (
            e,
            d,
            info,
            inspected,
            serialized,
            read,
            ap (λ r. r.1 self) p ∙ overwrite_self-last fs self file e d f h done,
          )

  -- After an `Overwrite` that succeeds, of a serialization within the limit and an executable of
  -- fewer than 2 ^ 62 bytes that is at its path, the next `OpenSelf`, whether or not it can remove
  -- the sidecar, gives a DB with the content that was saved and with the size of the engine bytes
  -- that were read from the executable, unless a call of its `loadBlobInto` fails, which makes it
  -- an error.
  pub open_self-overwrite :
      (db : Db s.Content) (fs : Files) (self tmp : Text) (rel : Option Text) (is_busy : Bool)
      (f : Overwrite.Faults) (file : File) (d : Bytes) (remove_fails : Bool) (lf : Scratch.Faults)
      → fs self ≡ some file
      → length file.content < 2 ^ 62
      → s.serialize db.content ≡ some d
      → length d ≤ max_data_size
      → (overwrite s db fs self tmp rel is_busy f).0 ≡ ok tt
      → (e : Bytes) × (info : Info) × (inspect self file.content ≡ ok info)
        × (read_engine_prefix fs self (engine_length info file.content) ≡ ok e)
        × ((open_self s (overwrite s db fs self tmp rel is_busy f).1 self remove_fails lf).0
            ≡ unless_fault lf (opened self db.content e d))
  unfolding open_self
  open_self-overwrite db fs self tmp rel is_busy f file d remove_fails lf h hc sd hd k =
      let (e, d', info, inspected, sd', read, wrote) =
        overwrite-writes db fs self tmp rel is_busy f file h k in
      let same : d' ≡ d = cc in
      let last = (overwrite s db fs self tmp rel is_busy f).1 in
      let kept =
        cleanup-keeps_self self (file_of (image_of e d) 493) last remove_fails (rw same at wrote) in
      let bound : length e < 2 ^ 62 = omega (
        arith,
        hc,
        read_engine_prefix-within fs self (engine_length info file.content) file h read,
      ) in
      let clean = cleanup_orphaned_old_self last self remove_fails in
      (
        e,
        info,
        inspected,
        read,
        open_db-image_of s clean self db.content e d 493 lf bound hd sd kept,
      )
