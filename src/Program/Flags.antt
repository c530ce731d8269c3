-- ===== src/Program/Flags.antt =====
-- cmd/execdb/main.go: `parseFlags` and `main`. Package flag is a parameter: it reads the command line
-- into assignments to the flags, in their order, or fails.
use mathlib.Core.Path.{subst}
use execdb.Prelude.{
  ℕ, Bool, false, ◌||◌, if◌then◌else◌, List, [], ◌∷◌, Text, codes, eq_text, eq_text_iff, ◌≡◌, refl,
  ap, arith, map, sym, Bool-cases, ◌∙◌, ◌⊎◌, inl, inr,
}
use execdb.Repl.Names.{Options}
use execdb.Program.{Action, exited, run, Meets}

-- What `StringVar`, `BoolVar` and `DurationVar` assign.
pub data Assignment : Type 0 where
  string_var : Text → Text → Assignment
  bool_var : Text → Bool → Assignment
  duration_var : Text → ℕ → Assignment

-- `fs.Parse`: its error, which is `flag.ErrHelp` or not, or the assignments.
pub data Parsed : Type 0 where
  help failed : Parsed
  parsed : List Assignment → Parsed

abbrev pub no_options : Options
no_options = record {
  pg_addr = [];
  socket = [];
  snapshot_as = [];
  no_repl = false;
  quiet = false;
  timestamp = false;
  snapshot_interval = 0;
  user = [];
  password = [];
}

-- The flag of either name.
abbrev pub is_flag : Text → Text → Text → Bool
is_flag long short name = eq_text name long || eq_text name short

-- What each flag is bound to.
unfoldable pub set_flag : Assignment → Options → Options
unfolding eq_text
set_flag (string_var name v) opts =
    if is_flag (codes "pg-addr") (codes "p") name
    then record opts { pg_addr = v }
    else if is_flag (codes "socket") (codes "s") name
    then record opts { socket = v }
    else if is_flag (codes "snapshot-as") (codes "o") name
    then record opts { snapshot_as = v }
    else if is_flag (codes "user") (codes "u") name
    then record opts { user = v }
    else opts
set_flag (bool_var name v) opts =
    if is_flag (codes "no-repl") (codes "n") name
    then record opts { no_repl = v }
    else if is_flag (codes "quiet") (codes "q") name
    then record opts { quiet = v }
    else if is_flag (codes "timestamp") (codes "t") name
    then record opts { timestamp = v }
    else opts
set_flag (duration_var name v) opts =
    if is_flag (codes "snapshot-interval") (codes "i") name
    then record opts { snapshot_interval = v }
    else opts

unfoldable pub set_flags : List Assignment → Options → Options
unfolding set_flag
set_flags [] opts = opts
set_flags (a ∷ assignments) opts = set_flags assignments (set_flag a opts)

-- `parseFlags`; the code that `main` exits with stands for an error.
unfoldable pub parse_flags : Parsed → ℕ ⊎ Options
unfolding set_flags
parse_flags help = inl 0
parse_flags failed = inl 2
parse_flags (parsed assignments) = inr (set_flags assignments no_options)

-- `main`.
unfoldable pub main : Parsed → Meets → List Action
unfolding parse_flags run
main p m = elim (parse_flags p) [ inl code ↦ exited code ∷ [] | inr opts ↦ run opts m ]

-- The long name of a flag.
unfoldable pub long_name : Text → Text
unfolding eq_text
long_name name =
    if eq_text name (codes "p")
    then codes "pg-addr"
    else if eq_text name (codes "s")
    then codes "socket"
    else if eq_text name (codes "o")
    then codes "snapshot-as"
    else if eq_text name (codes "u")
    then codes "user"
    else if eq_text name (codes "n")
    then codes "no-repl"
    else if eq_text name (codes "q")
    then codes "quiet"
    else if eq_text name (codes "t")
    then codes "timestamp"
    else if eq_text name (codes "i")
    then codes "snapshot-interval"
    else name

abbrev pub renamed : Assignment → Assignment
renamed (string_var name v) = string_var (long_name name) v
renamed (bool_var name v) = bool_var (long_name name) v
renamed (duration_var name v) = duration_var (long_name name) v

-- A name is one that is given, or another.
by_name : (P : Text → Type 0) (x name : Text) → P x → (eq_text name x ≡ false → P name) → P name
by_name P x name h k = elim (Bool-cases (eq_text name x)) [
  | inl e ↦ subst P (sym ((eq_text_iff name x).0 e)) h
  | inr e ↦ k e
]

-- What does not tell the short names from the long ones is the same of any name and its long one.
long_name-same :
    (f : Text → Options) (name : Text)
    → f (codes "pg-addr") ≡ f (codes "p")
    → f (codes "socket") ≡ f (codes "s")
    → f (codes "snapshot-as") ≡ f (codes "o")
    → f (codes "user") ≡ f (codes "u")
    → f (codes "no-repl") ≡ f (codes "n")
    → f (codes "quiet") ≡ f (codes "q")
    → f (codes "timestamp") ≡ f (codes "t")
    → f (codes "snapshot-interval") ≡ f (codes "i")
    → f (long_name name) ≡ f name
unfolding long_name
long_name-same f name hp hs ho hu hn hq ht hi =
    let split = by_name (λ x. f (long_name x) ≡ f x) in
    split (codes "p") name hp (λ ep. split (codes "s") name hs (λ es.
      split (codes "o") name ho (λ eo. split (codes "u") name hu (λ eu.
        split (codes "n") name hn (λ en. split (codes "q") name hq (λ eq.
          split (codes "t") name ht (λ et.
            split (codes "i") name hi
              (λ ei. ap f (ground (arith, ep, es, eo, eu, en, eq, et, ei))))))))))

set_flag-renamed : (a : Assignment) (opts : Options) → set_flag (renamed a) opts ≡ set_flag a opts
unfolding set_flag
set_flag-renamed (string_var name v) opts =
    long_name-same (λ x. set_flag (string_var x v) opts) name refl refl refl refl refl refl refl
      refl
set_flag-renamed (bool_var name v) opts =
    long_name-same (λ x. set_flag (bool_var x v) opts) name refl refl refl refl refl refl refl refl
set_flag-renamed (duration_var name v) opts =
    long_name-same (λ x. set_flag (duration_var x v) opts) name refl refl refl refl refl refl refl
      refl

set_flags-renamed :
    (assignments : List Assignment) (opts : Options)
    → set_flags (map renamed assignments) opts ≡ set_flags assignments opts
unfolding set_flags
set_flags-renamed [] opts = refl
set_flags-renamed (a ∷ assignments) opts =
    set_flags-renamed assignments (set_flag (renamed a) opts)
    ∙ ap (set_flags assignments) (set_flag-renamed a opts)

-- A command line with the short names of flags does what it does with the long ones.
pub main-renamed :
    (assignments : List Assignment) (m : Meets)
    → main (parsed (map renamed assignments)) m ≡ main (parsed assignments) m
unfolding main parse_flags
main-renamed assignments m = ap (λ opts. run opts m) (set_flags-renamed assignments no_options)
