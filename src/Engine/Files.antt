-- ===== src/Engine/Files.antt =====
-- The part of a file system that package engine works on, and the calls of package os. Whether a
-- call fails, beyond what the files themselves say, is an argument of the code that makes it.
use execdb.Prelude.{
  ℕ, Option, none, some, if◌then◌else◌, Text, eq_text, eq_text_iff, eq_text_refl, Bytes, ◌≡◌, ◌≢◌,
  Bool-cases, inl, inr,
}

pub record File : Type 0 where
  pub content : Bytes
  pub mode : ℕ

abbrev pub Files : Type 0
Files = Text → Option File

unfoldable pub put : Files → Text → Option File → Files
put fs path file q = if eq_text path q then file else fs q

abbrev pub put_file : Files → Text → Bytes → ℕ → Files
put_file fs path content mode = put fs path (some (record { content = content; mode = mode }))

-- `os.Remove`, ignored where it fails.
abbrev pub remove : Files → Text → Files
remove fs path = put fs path none

-- `os.Rename`, of a file that is there.
abbrev pub rename : Files → Text → Text → Files
rename fs old new = put (put fs new (fs old)) old none

pub put_self : (fs : Files) (path : Text) (file : Option File) → put fs path file path ≡ file
unfolding put
put_self fs path file = rw (eq_text_refl path)

pub put_ne :
    (fs : Files) (path q : Text) (file : Option File) → path ≢ q → put fs path file q ≡ fs q
unfolding put
put_ne fs path q file h = elim (Bool-cases (eq_text path q)) [
  | inl e ↦ absurd (h ((eq_text_iff path q).0 e))
  | inr e ↦ rw e
]
