-- ===== src/Engine/Atomic.antt =====
-- engine/persist.go: `writeImageAtomic`, with `writeImage` on its temporary file.
pub mod Laws
use execdb.Prelude.{ℕ, Bool, true, false, Option, none, some, if◌then◌else◌, [], Text, Bytes, take}
use execdb.Engine.Errors.{Result, ok, err, os_error}
use execdb.Engine.Files.{Files, put_file, remove, rename}
use execdb.Engine.Footer.{image_of}

-- Which of the calls fail; a write that fails has written some bytes.
pub record Faults : Type 0 where
  pub create : Bool
  pub write : Option ℕ
  pub chmod : Bool
  pub close : Bool
  pub rename : Bool
  pub remove : Bool

-- The deferred `os.Remove(tmpPath)`.
abbrev pub cleanup : Files → Text → Bool → Files
cleanup fs tmp fails = if fails then fs else remove fs tmp

-- From the `Chmod` on, with the image in the temporary file.
unfoldable pub publish : Files → Text → Text → Bytes → ℕ → Faults → Result (Unit {0}) × Files
publish fs path tmp image mode f =
    let written = put_file fs tmp image 384 in
    let marked = put_file fs tmp image mode in
    if f.chmod
    then (err os_error, cleanup written tmp f.remove)
    else if f.close
    then (err os_error, cleanup marked tmp f.remove)
    else if f.rename
    then (err os_error, cleanup marked tmp f.remove)
    else (ok tt, cleanup (rename marked tmp path) tmp f.remove)

-- `tmp` is the name that `os.CreateTemp` picks; it creates the file with mode 0600.
unfoldable pub write_image_atomic :
    Files → Text → Text → Bytes → Bytes → ℕ → Faults → Result (Unit {0}) × Files
unfolding publish
write_image_atomic fs path tmp engine_bytes blob mode f =
    let image = image_of engine_bytes blob in
    let partial = λ (n : ℕ). cleanup (put_file fs tmp (take n image) 384) tmp f.remove in
    if f.create then (err os_error, fs) else elim f.write [
      | some n ↦ (err os_error, partial n)
      | none ↦ publish fs path tmp image mode f
    ]
