-- ===== src/Engine/Overwrite/Laws.antt =====
-- engine/persist.go: `overwriteSelf` with faults.
use execdb.Prelude.{
  ℕ, Bool, true, false, Option, none, some, if◌then◌else◌, Text, Bytes, eq_text, eq_text_iff,
  eq_text_refl, length, length-append, ◌≡◌, ◌≢◌, ◌⊎◌, inl, inr, refl, sym, ap, arith, Bool-cases,
  All,
}
use execdb.Engine.Errors.{ok, err, os_error}
use execdb.Engine.Files.{File, Files, put, remove, rename}
use execdb.Engine.Footer.{image_of}
use execdb.Engine.Overwrite.{
  old_suffix, old_path, WriteFault, not_created, stopped, Faults, Run, partial,
  cleanup_orphaned_old_self, write_new, overwrite_self,
}

old_path-ne : (self_path : Text) → self_path ≢ old_path self_path
old_path-ne self_path e = omega (arith, ap length e, length-append self_path old_suffix)

eq-old_path : (self_path : Text) → eq_text self_path (old_path self_path) ≡ false
eq-old_path s = elim (Bool-cases (eq_text s (old_path s))) [
  | inl e ↦ absurd (old_path-ne s ((eq_text_iff s (old_path s)).0 e))
  | inr e ↦ e
]

eq-old_path_sym : (self_path : Text) → eq_text (old_path self_path) self_path ≡ false
eq-old_path_sym s = elim (Bool-cases (eq_text (old_path s) s)) [
  | inl e ↦ absurd (old_path-ne s (sym ((eq_text_iff (old_path s) s).0 e)))
  | inr e ↦ e
]

module _ (self_path : Text) (orig : File) where
  rename-restores :
      (fs : Files)
      → fs (old_path self_path) ≡ some orig
      → rename fs (old_path self_path) self_path self_path ≡ some orig
  unfolding put
  rename-restores fs h = rw (eq-old_path_sym self_path, eq_text_refl self_path, h)

  rename_aside :
      (fs : Files)
      → fs self_path ≡ some orig
      → rename fs self_path (old_path self_path) (old_path self_path) ≡ some orig
  unfolding put
  rename_aside fs h = rw (eq-old_path self_path, eq_text_refl (old_path self_path), h)

  put-keeps_old :
      (fs : Files) (file : Option File)
      → fs (old_path self_path) ≡ some orig
      → put fs self_path file (old_path self_path) ≡ some orig
  unfolding put
  put-keeps_old fs file h = rw (eq-old_path self_path) h

  partial-keeps_old :
      (fs : Files) (image : Bytes) (fault : WriteFault)
      → fs (old_path self_path) ≡ some orig
      → partial fs self_path image fault (old_path self_path) ≡ some orig
  partial-keeps_old fs image not_created h = h
  partial-keeps_old fs image (stopped n) h = put-keeps_old fs _ h

  pub cleanup-keeps_self :
      (fs : Files) (fails : Bool)
      → fs self_path ≡ some orig
      → cleanup_orphaned_old_self fs self_path fails self_path ≡ some orig
  unfolding cleanup_orphaned_old_self put
  cleanup-keeps_self fs true h = h
  cleanup-keeps_self fs false h = rw (eq-old_path_sym self_path) h

abbrev pub file_of : Bytes → ℕ → File
file_of content mode = record { content = content; mode = mode }

put-remove_old :
    (fs : Files) (self_path : Text) (file : File) (keep : Bool)
    → (if keep
          then put fs self_path (some file)
          else remove (put fs self_path (some file)) (old_path self_path))
        self_path
      ≡ some file
unfolding put
put-remove_old fs s file true = rw (eq_text_refl s)
put-remove_old fs s file false = rw (eq-old_path_sym s, eq_text_refl s)

-- The executable as it was, at its path or beside it, or the whole new one at its path.
abbrev pub Survives : Text → File → File → Files → Type 0
Survives self_path orig new fs =
    (fs self_path ≡ some orig) ⊎ (fs (old_path self_path) ≡ some orig) ⊎ (fs self_path ≡ some new)

-- How a run ends.
abbrev pub Ends : Text → File → File → Bool → Run → Type 0
Ends self_path orig new restore_fails run =
    (run.result ≡ ok tt) × (run.last self_path ≡ some new)
    ⊎ (run.result ≡ err os_error)
      × ((run.last self_path ≡ some orig)
          ⊎ (restore_fails ≡ true) × (run.last (old_path self_path) ≡ some orig))

write_new-Survives :
    (self_path : Text) (orig : File) (aside : Files) (image : Bytes) (f : Faults)
    → aside (old_path self_path) ≡ some orig
    → All (Survives self_path orig (file_of image 493)) (write_new aside self_path image f).states
      × Ends self_path orig (file_of image 493) f.restore (write_new aside self_path image f)
unfolding write_new
write_new-Survives s orig aside image f h = at f.write f.restore
  where
    new : put aside s (some (file_of image 493)) s ≡ some (file_of image 493)
    new = unfold put in rw (eq_text_refl s)

    at :
        (write : Option WriteFault) (restore : Bool)
        → All
            (Survives s orig (file_of image 493))
            (write_new aside s image (record f { write = write; restore = restore })).states
          × Ends s orig
              (file_of image 493)
              restore
              (write_new aside s image (record f { write = write; restore = restore }))
    at none r =
        let last = put-remove_old aside s (file_of image 493) f.remove_old in
        ((inr (inr new), (inr (inr last), tt)), inl (refl, last))
    at (some fault) true =
        let kept = partial-keeps_old s orig aside image fault h in
        ((inr (inl kept), (inr (inl kept), tt)), inr (refl, inr (refl, kept)))
    at (some fault) false =
        let kept = partial-keeps_old s orig aside image fault h in
        let restored = rename-restores s orig (partial aside s image fault) kept in
        ((inr (inl kept), (inl restored, tt)), inr (refl, inl restored))

-- Where the executable stands at its path, then whichever calls of `overwriteSelf` fail, after each
-- of the calls the old executable or the new one is whole, the old one at its own path or in the
-- sidecar. A success leaves the new executable in place; a failure leaves the old one there, unless
-- the restoring rename fails too: then it is in the sidecar.
pub overwrite_self-Survives :
    (fs : Files) (self_path : Text) (orig : File) (engine_bytes blob : Bytes) (f : Faults)
    → fs self_path ≡ some orig
    → All
        (Survives self_path orig (file_of (image_of engine_bytes blob) 493))
        (overwrite_self fs self_path engine_bytes blob f).states
      × Ends self_path orig
          (file_of (image_of engine_bytes blob) 493)
          f.restore
          (overwrite_self fs self_path engine_bytes blob f)
unfolding overwrite_self
overwrite_self-Survives fs s orig engine_bytes blob f h = at f.move_aside
  where
    clean : cleanup_orphaned_old_self fs s f.remove_leftover s ≡ some orig
    clean = cleanup-keeps_self s orig fs f.remove_leftover h

    moved :
        rename (cleanup_orphaned_old_self fs s f.remove_leftover) s (old_path s) (old_path s)
        ≡ some orig
    moved = rename_aside s orig (cleanup_orphaned_old_self fs s f.remove_leftover) clean

    at :
        (move_aside : Bool)
        → All
            (Survives s orig (file_of (image_of engine_bytes blob) 493))
            (overwrite_self fs s engine_bytes blob (record f { move_aside = move_aside })).states
          × Ends s orig
              (file_of (image_of engine_bytes blob) 493)
              f.restore
              (overwrite_self fs s engine_bytes blob (record f { move_aside = move_aside }))
    at true = ((inl clean, tt), inr (refl, inl clean))
    at false =
        let rest =
          write_new-Survives s orig
            (rename (cleanup_orphaned_old_self fs s f.remove_leftover) s (old_path s))
            (image_of engine_bytes blob) (record f { move_aside = false }) moved in
        ((inl clean, (inr (inl moved), rest.0)), rest.1)
