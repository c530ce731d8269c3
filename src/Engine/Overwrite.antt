-- ===== src/Engine/Overwrite.antt =====
-- engine/persist.go: `overwriteSelf`, `cleanupOrphanedOldSelf` and `looksLikeGoRunTempBinary`.
pub mod Laws
use execdb.Prelude.{
  ℕ, Bool, true, false, not, ◌&&◌, Option, none, some, if◌then◌else◌, List, [], ◌∷◌, ◌++◌, Text,
  codes, Bytes, take, has_prefix, contains,
}
use execdb.Engine.Errors.{Result, ok, err, os_error}
use execdb.Engine.Files.{File, Files, put_file, remove, rename}
use execdb.Engine.Footer.{image_of}

abbrev pub old_suffix : Text
old_suffix = codes ".execdb_old"

abbrev pub old_path : Text → Text
old_path self_path = self_path ++ old_suffix

-- Which of the calls fail. `os.WriteFile` may fail before it has made the file, or with some bytes
-- written.
pub data WriteFault : Type 0 where
  not_created : WriteFault
  stopped : ℕ → WriteFault

pub record Faults : Type 0 where
  pub remove_leftover : Bool
  pub move_aside : Bool
  pub write : Option WriteFault
  pub restore : Bool
  pub remove_old : Bool

-- The files after each call, the last one last, with the result.
pub record Run : Type 0 where
  pub result : Result (Unit {0})
  pub states : List Files
  pub last : Files

abbrev pub partial : Files → Text → Bytes → WriteFault → Files
partial fs path image not_created = fs
partial fs path image (stopped n) = put_file fs path (take n image) 493

-- `cleanupOrphanedOldSelf`, and the first call of `overwriteSelf`.
unfoldable pub cleanup_orphaned_old_self : Files → Text → Bool → Files
cleanup_orphaned_old_self fs self_path fails = if fails then fs else remove fs (old_path self_path)

-- From the `os.WriteFile` on. The restore moves the old file over whatever was written.
unfoldable pub write_new : Files → Text → Bytes → Faults → Run
write_new aside self_path image f =
    let old = old_path self_path in
    elim f.write [
      | none ↦
          let new = put_file aside self_path image 493 in
          let last = if f.remove_old then new else remove new old in
          record { result = ok tt; states = new ∷ last ∷ []; last = last }
      | some fault ↦
          let broken = partial aside self_path image fault in
          let last = if f.restore then broken else rename broken old self_path in
          record { result = err os_error; states = broken ∷ last ∷ []; last = last }
    ]

unfoldable pub overwrite_self : Files → Text → Bytes → Bytes → Faults → Run
unfolding cleanup_orphaned_old_self write_new
overwrite_self fs self_path engine_bytes blob f =
    let clean = cleanup_orphaned_old_self fs self_path f.remove_leftover in
    let aside = rename clean self_path (old_path self_path) in
    let rest = write_new aside self_path (image_of engine_bytes blob) f in
    if f.move_aside
    then record { result = err os_error; states = clean ∷ []; last = clean }
    else record rest { states = clean ∷ aside ∷ rest.states }

-- `looksLikeGoRunTempBinary`, from the answers of `os.TempDir` and `filepath.Rel`.
unfoldable pub looks_like_go_run_temp_binary : Text → Option Text → Bool
unfolding has_prefix contains
looks_like_go_run_temp_binary [] rel = false
looks_like_go_run_temp_binary (c ∷ tmp) none = false
looks_like_go_run_temp_binary (c ∷ tmp) (some rel) =
    not (has_prefix rel (codes "..")) && contains rel (codes "go-build")
