-- ===== src/Repl/Names.antt =====
-- cmd/execdb/filename.go, cmd/execdb/main.go and cmd/execdb/auth.go: the name of a snapshot's file, and
-- the password that the server asks for.
pub mod Laws
use execdb.Prelude.{
  ℕ, ◌-◌, Bool, true, false, not, ◌&&◌, ◌||◌, Option, none, some, ◌==◌, leb, if◌then◌else◌, List,
  [], ◌∷◌, ◌++◌, Text, codes, is_empty, length, take, drop, within, eq_text, ◌⊎◌, inl, inr,
}

abbrev pub has_slash : Text → Bool
has_slash [] = false
has_slash (c ∷ s) = c == b'/' || has_slash s

-- `path.Ext`.
unfoldable pub ext : Text → Text
ext [] = []
ext (c ∷ s) =
    let rest = ext s in
    if is_empty rest then if c == b'.' && not (has_slash s) then c ∷ s else [] else rest

-- `strings.TrimSuffix(base, ext)`.
abbrev pub trim_suffix : Text → Text → Text
trim_suffix s suffix = take (length s - length suffix) s

abbrev pub all_digits : Text → Bool
all_digits [] = true
all_digits (c ∷ s) = within 48 57 c && all_digits s

-- `_[0-9]{14}` and the end.
unfoldable pub is_timestamp_suffix : Text → Bool
is_timestamp_suffix [] = false
is_timestamp_suffix (c ∷ s) = c == b'_' && (length s == 14 && all_digits s)

-- `timestampSuffixPattern.ReplaceAllString(name, "")`.
unfoldable pub strip_timestamp : Text → Text
unfolding is_timestamp_suffix
strip_timestamp name =
    if is_timestamp_suffix (drop (length name - 15) name)
    then take (length name - 15) name
    else name

-- `snapshotFilename`; `now` is the time in the layout.
unfoldable pub snapshot_filename : Text → Bool → Text → Text → Text
unfolding ext strip_timestamp
snapshot_filename base with_timestamp now goos =
    let e = ext base in
    let name = trim_suffix base e in
    (if with_timestamp then strip_timestamp name ++ (b'_' ∷ now) else name)
    ++ (if is_empty e && eq_text goos (codes "windows") then codes ".exe" else e)

-- `options`.
pub record Options : Type 0 where
  pub pg_addr : Text
  pub socket : Text
  pub snapshot_as : Text
  pub no_repl : Bool
  pub quiet : Bool
  pub timestamp : Bool
  pub snapshot_interval : ℕ
  pub user : Text
  pub password : Text

-- What the program asks its system for: `filepath.Base(os.Executable())`, where that is known, the time
-- and the system's name.
pub record Host : Type 0 where
  pub executable_base : Option Text
  pub now : Text
  pub goos : Text

-- `defaultSnapshotBase`.
abbrev pub default_snapshot_base : Option Text → Text
default_snapshot_base none = codes "execdb"
default_snapshot_base (some name) = name

-- `resolveSnapshotFilename`.
unfoldable pub resolve_snapshot_filename : Host → Options → Text → Bool → Text
unfolding snapshot_filename
resolve_snapshot_filename host opts explicit with_timestamp =
    let base = if is_empty explicit then opts.snapshot_as else explicit in
    let base' = if is_empty base then default_snapshot_base host.executable_base else base in
    snapshot_filename base' with_timestamp host.now host.goos

-- `resolveAuthWith`, with `$EXECDB_PASSWORD` and what the prompt would return.
unfoldable pub resolve_auth_with : Options → Option Text → Text ⊎ Text → Text ⊎ Options
resolve_auth_with opts env prompt = if is_empty opts.user then inr opts else elim env [
  | some pw ↦ inr (record opts { password = pw })
  | none ↦
      if opts.no_repl
      then inl (
          codes
            "--user requires EXECDB_PASSWORD to be set in server mode (--no-repl has no terminal to prompt)")
      else elim prompt [
        | inl message ↦ inl (codes "reading password: " ++ message)
        | inr pw ↦ inr (record opts { password = pw })
      ]
]
