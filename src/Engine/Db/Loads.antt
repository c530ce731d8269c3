-- ===== src/Engine/Db/Loads.antt =====
-- engine/persist.go: `Load` and `LoadFrom`, with the faults of `loadBlobInto`.
use mathlib.Core.Path.{subst}
use execdb.Prelude.{
  ◌^◌, ◌≤◌, ◌<◌, Bool, true, false, not, ◌||◌, Option, none, some, [], Text, Bytes, take, drop,
  length, Bool-cases, if◌then◌else◌, ◌≡◌, ◌⊎◌, inl, inr, refl, sym, ap, ◌∙◌, arith,
}
use execdb.Engine.Errors.{Error, Result, ok, err, sqlite_error, closed, no_data, >>=-eq-ok}
use execdb.Engine.Files.{Files}
use execdb.Engine.Footer.{
  Info, max_data_size, inspect_bytes, image_of, written_info, inspect_bytes-image_of,
  image_of_parts,
}
use execdb.Engine.Sqlite.{Sqlite}
use execdb.Engine.Scratch.{load_blob_into}
use execdb.Engine.Scratch.Laws.{
  any_fault, fails_early, load_blob_into-serialize, load_blob_into-Ends,
}
use execdb.Engine.Scratch as Scratch
use execdb.Engine.Db.{
  Db, Loaded, load_from_file, image, load_found, load_decoded, load, load_from, snapshot_to,
  apply_loaded_data, recorded,
}
use execdb.Engine.Db.Laws.{length-read_engine_prefix, image-eq_ok}

module _ (s : Sqlite) where
  open s use {Content, serialize, deserialize}

  -- What `Load` finds in a file, and `LoadFrom` in what it reads.
  abbrev pub InFile : Files → Text → Info → Bytes → Type 0
  InFile fs path info blob =
      (l : Loaded) × (load_from_file fs path ≡ ok l) × (l.info ≡ info) × (l.blob ≡ some blob)

  abbrev pub InBytes : Bytes → Info → Bytes → Type 0
  InBytes buf info blob =
      (inspect_bytes buf ≡ ok info)
      × (info.has_data ≡ true)
      × (take info.data_length (drop info.data_offset buf) ≡ blob)

  -- There is data, and it restores.
  abbrev pub Restorable : (Info → Bytes → Type 0) → Type 0
  Restorable Found =
      (info : Info) × (blob : Bytes) × (c : Content) × Found info blob × (deserialize blob ≡ some c)

  -- Why a load does nothing.
  abbrev pub Refused : Scratch.Faults → (Info → Bytes → Type 0) → Db Content → Type 0
  Refused lf Found db = (db.is_closed ≡ true) ⊎ (fails_early lf ≡ true) ⊎ (¬ Restorable Found)

  -- With success, the content and the `Info` are those that were found; with an error nothing
  -- changed, for a reason, or the content did, where the last call failed.
  abbrev pub KeepsEngine :
      Scratch.Faults
      → (Info → Bytes → Type 0)
      → Db Content
      → Result (Unit {0}) × Db Content
      → Type 0
  KeepsEngine lf Found db out =
      ((e : Error) × (out.0 ≡ err e) × (out.1 ≡ db) × Refused lf Found db)
      ⊎ ((info : Info) × (blob : Bytes) × (c : Content) × Found info blob
          × (deserialize blob ≡ some c)
          × (fails_early lf ≡ false)
          × (out ≡ (
              if lf.finish
              then (err sqlite_error, record db { content = c })
              else (ok tt, record db { content = c; info = info }))))

  pub apply_loaded_data-recorded :
      (lf : Scratch.Faults) (db : Db Content) (info : Info) (blob : Bytes) {r : Result (Unit {0})}
      {c : Content}
      → db.is_closed ≡ false
      → (load_blob_into s blob db.content lf []).result ≡ r
      → (load_blob_into s blob db.content lf []).dst ≡ c
      → apply_loaded_data s db info blob lf ≡ recorded s db info r c
  unfolding apply_loaded_data
  apply_loaded_data-recorded lf db info blob {r} {c} alive result dst =
      let out = load_blob_into s blob db.content lf [] in
      ap (λ b. if b then (err closed, db) else recorded s db info out.result out.dst) alive
      ∙ ap (λ x. recorded s db info x out.dst) result
      ∙ ap (recorded s db info r) dst

  recorded-if :
      (fails : Bool) (db : Db Content) (info : Info) (c : Content)
      → recorded s db info (if fails then err sqlite_error else ok tt) c ≡ (
          if fails
          then (err sqlite_error, record db { content = c })
          else (ok tt, record db { content = c; info = info }))
  recorded-if true db info c = refl
  recorded-if false db info c = refl

  apply_loaded_data-KeepsEngine :
      (lf : Scratch.Faults) (Found : Info → Bytes → Type 0) (db : Db Content) (info : Info)
      (blob : Bytes)
      → Found info blob
      → ((i : Info) (b : Bytes) → Found i b → b ≡ blob)
      → KeepsEngine lf Found db (apply_loaded_data s db info blob lf)
  unfolding apply_loaded_data
  apply_loaded_data-KeepsEngine lf Found db info blob found only =
      let out = load_blob_into s blob db.content lf [] in
      let keeps : Result (Unit {0}) × Db Content → Type 0 = KeepsEngine lf Found db in
      let run : Bool → Result (Unit {0}) × Db Content =
        λ b. if b then (err closed, db) else recorded s db info out.result out.dst in
      elim (Bool-cases db.is_closed) [
        | inl p ↦ subst keeps (sym (ap run p)) (inl (closed, refl, refl, inl p))
        | inr p ↦ elim (load_blob_into-Ends s blob db.content [] lf) [
          | inl (failed, why, same, held) ↦
              subst keeps (sym (apply_loaded_data-recorded lf db info blob p failed same))
                (inl (_, refl, refl, inr (unreadable why)))
          | inr (c, restored, early, arrived, held, result) ↦ inr (
            info,
            blob,
            c,
            found,
            restored,
            early,
            apply_loaded_data-recorded lf db info blob p result arrived
                ∙ recorded-if lf.finish db info c,
          )
        ]
      ]
    where
      unreadable :
          (fails_early lf ≡ true) ⊎ (deserialize blob ≡ none)
          → (fails_early lf ≡ true) ⊎ (¬ Restorable Found)
      unreadable (inl early) = inl early
      unreadable (inr gone) = inr (λ h.
          let (i, b, c, f, restored) = h in let same = only i b f in cc (gone, restored, same))

  -- What a load of the blob of a content returns and leaves, by the calls of it that fail.
  abbrev pub loads_as :
      Scratch.Faults → Db Content → Info → Content → Result (Unit {0}) × Db Content
  loads_as lf db info c =
      if any_fault lf
      then (err sqlite_error, record db { content = if fails_early lf then db.content else c })
      else (ok tt, record db { content = c; info = info })

  recorded-loads_as :
      (early late : Bool) (db : Db Content) (info : Info) (c : Content)
      → recorded s db info
          (if early || late then err sqlite_error else ok tt)
          (if early then db.content else c)
        ≡ (if early || late
            then (err sqlite_error, record db { content = if early then db.content else c })
            else (ok tt, record db { content = c; info = info }))
  recorded-loads_as true late db info c = refl
  recorded-loads_as false true db info c = refl
  recorded-loads_as false false db info c = refl

  pub apply_loaded_data-serialize :
      (lf : Scratch.Faults) (db : Db Content) (info : Info) (c : Content) (d : Bytes)
      → serialize c ≡ some d
      → db.is_closed ≡ false
      → apply_loaded_data s db info d lf ≡ loads_as lf db info c
  apply_loaded_data-serialize lf db info c d sc alive =
      let (result, dst) = load_blob_into-serialize s c d db.content lf [] sc in
      apply_loaded_data-recorded lf db info d alive result dst
      ∙ recorded-loads_as (fails_early lf) lf.finish db info c

  load_found-KeepsEngine :
      (lf : Scratch.Faults) (db : Db Content) (fs : Files) (path : Text) (r : Result Loaded)
      → load_from_file fs path ≡ r
      → KeepsEngine lf (InFile fs path) db (load_found s db lf r)
  unfolding load_found
  load_found-KeepsEngine lf db fs path (err e) h = inl (
    e,
    refl,
    refl,
    inr (inr (λ f. let (i, b, c, (l, k, at_info, at_blob), restored) = f in ground (arith, h, k))),
  )
  load_found-KeepsEngine lf db fs path (ok l) h = at l.blob refl
    where
      same : (l' : Loaded) → load_from_file fs path ≡ ok l' → l' ≡ l
      same l' k = ground (arith, h, k)

      at :
          (blob : Option Bytes)
          → l.blob ≡ blob
          → KeepsEngine lf (InFile fs path) db (load_found s db lf (ok (record l { blob = blob })))
      at none q = inl (
        _,
        refl,
        refl,
        inr (
            inr (λ f.
              let (i, b, c, (l', k, at_info, at_blob), restored) = f in
              let e = same l' k in ground (arith, q, e, at_blob))),
      )
      at (some blob) q =
          apply_loaded_data-KeepsEngine lf (InFile fs path) db l.info blob (l, h, refl, q)
            (λ i b f.
              let (l', k, at_info, at_blob) = f in
              let e = same l' k in ground (arith, q, e, at_blob))

  load_decoded-KeepsEngine :
      (lf : Scratch.Faults) (db : Db Content) (buf : Bytes) (r : Result Info)
      → inspect_bytes buf ≡ r
      → KeepsEngine lf (InBytes buf) db (load_decoded s db buf lf r)
  unfolding load_decoded
  load_decoded-KeepsEngine lf db buf (err e) h = inl (
    e,
    refl,
    refl,
    inr (inr (λ f. let (i, b, c, (k, has, slice), restored) = f in ground (arith, h, k))),
  )
  load_decoded-KeepsEngine lf db buf (ok info) h = at info.has_data refl
    where
      found : Bytes
      found = take info.data_length (drop info.data_offset buf)

      same : (i : Info) → inspect_bytes buf ≡ ok i → i ≡ info
      same i k = ground (arith, h, k)

      at :
          (has : Bool)
          → info.has_data ≡ has
          → KeepsEngine lf
              (InBytes buf)
              db
              (if not has then (err no_data, db) else apply_loaded_data s db info found lf)
      at false q = inl (
        _,
        refl,
        refl,
        inr (
            inr (λ f.
              let (i, b, c, (k, has, slice), restored) = f in
              let e = same i k in ground (arith, q, e, has))),
      )
      at true q =
          apply_loaded_data-KeepsEngine lf (InBytes buf) db info found (h, q, refl)
            (λ i b f. let (k, has, slice) = f in let e = same i k in cc (e, slice))

  -- Whichever calls of `loadBlobInto` fail: a `Load` or `LoadFrom` returns an error and leaves the
  -- DB as it was, and this DB is closed, a call before `Finish` failed, or there is no data that
  -- restores; or the file, or what was read, has data that restores, no call before `Finish`
  -- failed, and the DB has this content, with its `Info` and with success unless `Finish` fails,
  -- and else with an error and the old `Info`. Nothing else changes, the path and the size by which
  -- later snapshots read the engine included.
  pub load-KeepsEngine :
      (lf : Scratch.Faults) (db : Db Content) (fs : Files) (path : Text) (buf : Bytes)
      → KeepsEngine lf (InFile fs path) db (load s db fs path lf)
        × KeepsEngine lf (InBytes buf) db (load_from s db buf lf)
  unfolding load load_from
  load-KeepsEngine lf db fs path buf = (
    load_found-KeepsEngine lf db fs path (load_from_file fs path) refl,
    load_decoded-KeepsEngine lf db buf (inspect_bytes buf) refl,
  )

  load_decoded-image_of :
      (lf : Scratch.Faults) (db : Db Content) (c : Content) (e d : Bytes)
      → serialize c ≡ some d
      → db.is_closed ≡ false
      → load_decoded s db (image_of e d) lf (ok (written_info e d))
        ≡ loads_as lf db (written_info e d) c
  unfolding load_decoded
  load_decoded-image_of lf db c e d sc alive =
      ap (λ x. apply_loaded_data s db (written_info e d) x lf) ((image_of_parts e d).1)
      ∙ apply_loaded_data-serialize lf db (written_info e d) c d sc alive

  -- `SnapshotTo` that succeeds, of a serialization within the limit and an engine of fewer than 2 ^
  -- 62 bytes, then `LoadFrom`, in the same DB or another that is open: with no call of
  -- `loadBlobInto` failing, the content arrives and the DB that loads it keeps the rest; else there
  -- is an error, and the content arrives where only `Finish` fails.
  pub load_from-snapshot_to :
      (lf : Scratch.Faults) (db other : Db Content) (fs : Files) (is_busy : Bool) (d : Bytes)
      {buf : Bytes}
      → serialize db.content ≡ some d
      → length d ≤ max_data_size
      → db.engine_size < 2 ^ 62
      → other.is_closed ≡ false
      → snapshot_to s db fs is_busy ≡ ok buf
      → (e : Bytes) × (load_from s other buf lf ≡ loads_as lf other (written_info e d) db.content)
  unfolding snapshot_to load_from
  load_from-snapshot_to lf db other fs is_busy d {buf} sd hd hn alive snapped =
      let ((e, d'), img, same) = >>=-eq-ok (image s db fs is_busy) _ snapped in
      let (sd', read) = image-eq_ok s db fs is_busy img in
      let he : length e < 2 ^ 62 =
        omega (arith, length-read_engine_prefix fs db.source_path db.engine_size read) in
      let arrived : buf ≡ image_of e d = cc in
      (
        e,
        ap (λ b. load_from s other b lf) arrived
            ∙ ap (load_decoded s other (image_of e d) lf) (inspect_bytes-image_of e d he hd)
            ∙ load_decoded-image_of lf other db.content e d sd alive,
      )
