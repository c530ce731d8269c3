-- ===== src/Engine/Scratch/Laws.antt =====
-- engine/serialize.go and engine/backup.go: the paths of `loadBlobInto`.
use execdb.Prelude.{
  Bool, true, false, ◌||◌, Option, none, some, if◌then◌else◌, List, ◌∷◌, Bytes, ◌≡◌, ◌⊎◌, inl, inr,
  refl, arith,
}
use execdb.Engine.Errors.{ok, err, sqlite_error}
use execdb.Engine.Sqlite.{Sqlite}
use execdb.Engine.Scratch.{
  Resource, backup, release, is_same, deferred, Stepped, step_fails, more, all, is_incomplete,
  Faults, Outcome, finish_backup, backup_into, deserialize_into, load_through, load_blob_into,
}

-- The calls of the copy that fail before `Finish`.
abbrev pub fails_early : Faults → Bool
fails_early f =
    f.open_scratch
    || f.open_conn
    || f.no_deserializer
    || f.no_backupper
    || f.new_backup
    || is_incomplete f.step

-- Whether any call fails.
abbrev pub any_fault : Faults → Bool
any_fault f = fails_early f || f.finish

-- How a load ends. Either it fails, and the destination has what it had; or the destination has the
-- content of the blob.
abbrev pub Ends :
    (s : Sqlite) → Bytes → s.Content → Faults → List Resource → Outcome s.Content → Type 0
Ends s blob dst f held out =
    ((out.result ≡ err sqlite_error)
      × ((fails_early f ≡ true) ⊎ (s.deserialize blob ≡ none))
      × (out.dst ≡ dst)
      × ((out.held ≡ held) ⊎ ((out.held ≡ backup ∷ held) × (is_incomplete f.step ≡ true))))
    ⊎ ((c : s.Content) × (s.deserialize blob ≡ some c)
        × (fails_early f ≡ false)
        × (out.dst ≡ c)
        × (out.held ≡ held)
        × (out.result ≡ (if f.finish then err sqlite_error else ok tt)))

module _ (s : Sqlite) (blob : Bytes) (dst : s.Content) (held : List Resource) where
  -- The calls one after the other, each with the outcome of the rest.
  load_blob_into-Ends_at :
      (a b c d e : Bool) (step : Stepped) (g : Bool) (o : Option s.Content)
      → s.deserialize blob ≡ o
      → let f : Faults = record {
        open_scratch = a;
        open_conn = b;
        no_deserializer = c;
        no_backupper = d;
        new_backup = e;
        step = step;
        finish = g;
      } in
        Ends s blob dst f held (load_blob_into s blob dst f held)
  unfolding load_blob_into deserialize_into load_through backup_into finish_backup deferred release
      is_same
  load_blob_into-Ends_at true b c d e step g o h = inl (refl, inl refl, refl, inl refl)
  load_blob_into-Ends_at false true c d e step g o h = inl (refl, inl refl, refl, inl refl)
  load_blob_into-Ends_at false false true d e step g o h = inl (refl, inl refl, refl, inl refl)
  load_blob_into-Ends_at false false false d e step g none h =
      rw h (inl (refl, inr refl, refl, inl refl))
  load_blob_into-Ends_at false false false true e step g (some v) h =
      rw h (inl (refl, inl refl, refl, inl refl))
  load_blob_into-Ends_at false false false false true step g (some v) h =
      rw h (inl (refl, inl refl, refl, inl refl))
  load_blob_into-Ends_at false false false false false step_fails g (some v) h =
      rw h (inl (refl, inl refl, refl, inr (refl, refl)))
  load_blob_into-Ends_at false false false false false more g (some v) h =
      rw h (inl (refl, inl refl, refl, inr (refl, refl)))
  load_blob_into-Ends_at false false false false false all g (some v) h =
      rw h (inr (v, refl, refl, refl, refl, refl))

  -- Whichever calls of `loadBlobInto` fail: either it returns an error, for a call before `Finish`
  -- or a blob that does not restore, and the live database has what it had; or none of these failed
  -- and the database has the content of the blob, whole, with an error exactly where `Finish`
  -- fails. What was open before stays open, and of what it opens only the backup, where its `Step`
  -- does not copy all the pages.
  pub load_blob_into-Ends : (f : Faults) → Ends s blob dst f held (load_blob_into s blob dst f held)
  load_blob_into-Ends f =
      load_blob_into-Ends_at f.open_scratch f.open_conn f.no_deserializer f.no_backupper
        f.new_backup f.step f.finish (s.deserialize blob) refl

-- The blob of a content: what a load of it returns, and what it leaves, by the calls that fail.
pub load_blob_into-serialize :
    (s : Sqlite) (c : s.Content) (blob : Bytes) (dst : s.Content) (f : Faults)
    (held : List Resource)
    → s.serialize c ≡ some blob
    → ((load_blob_into s blob dst f held).result
        ≡ (if any_fault f then err sqlite_error else ok tt))
      × ((load_blob_into s blob dst f held).dst ≡ (if fails_early f then dst else c))
load_blob_into-serialize s c blob dst f held h =
    let restored = s.restores c blob h in
    elim (load_blob_into-Ends s blob dst held f) [
      | inl (failed, inl early, same, rest) ↦
          (ground (arith, failed, early), ground (arith, same, early))
      | inl (failed, inr gone, same, rest) ↦ cc
      | inr (v, found, early, arrived, rest, result) ↦
          (ground (arith, early, result), ground (arith, early, arrived, restored, found))
    ]
