-- ===== src/Program.antt =====
-- cmd/execdb/main.go: the order in which the program starts and ends, and what it says.
pub mod Laws
pub mod Flags
use execdb.Prelude.{
  ℕ, Bool, true, false, not, ◌&&◌, ◌||◌, Option, none, some, ltb, if◌then◌else◌, List, [], ◌∷◌,
  ◌++◌, Text, codes, is_empty, ◌⊎◌, inl, inr,
}
use execdb.Repl.Names.{Options, Host, resolve_auth_with, resolve_snapshot_filename}
use execdb.Repl.Output.{Printed, silent, also, print_error}
use execdb.Repl.Import.{note}
use execdb.Repl.System.{System}

-- What `run` opens and starts, in the order of the calls.
pub data Action : Type 0 where
  opened started_pgwire started_interval banner served saved left_shell : Action
  stopped_pgwire closed_interval closed_db : Action
  exited : ℕ → Action

-- What `run` meets: `$EXECDB_PASSWORD`, the prompt's answer, the errors of `OpenSelf`, of
-- `startPgwire` and of the last `Snapshot`, and the code of an `os.Exit` in the shell.
pub record Meets : Type 0 where
  pub env : Option Text
  pub password : Text ⊎ Text
  pub open_self : Option Text
  pub start_pgwire : Option Text
  pub snapshot : Option Text
  pub exit_code : Option ℕ

-- `runServerMode`, where an error exits without the deferred calls.
abbrev pub serve : Meets → List Action → List Action
serve m deferred = elim m.snapshot [
  | some _ ↦ served ∷ exited 1 ∷ []
  | none ↦ served ∷ saved ∷ deferred
]

-- `runREPL`, where `os.Exit` skips the deferred calls as well.
abbrev pub use_shell : Meets → List Action → List Action
use_shell m deferred = elim m.exit_code [
  | some code ↦ left_shell ∷ exited code ∷ []
  | none ↦ left_shell ∷ deferred
]

-- The deferred calls, last first, and the exit of `main`.
abbrev pub deferred_calls : Options → List Action
deferred_calls opts =
    (if ltb 0 opts.snapshot_interval then closed_interval ∷ [] else [])
    ++ (stopped_pgwire ∷ closed_db ∷ exited 0 ∷ [])

-- `run` behind `startPgwire`.
unfoldable pub run_started : Options → Meets → List Action
run_started opts m =
    (if ltb 0 opts.snapshot_interval then started_interval ∷ [] else [])
    ++ (banner
        ∷ (if opts.no_repl
            then serve m (deferred_calls opts)
            else use_shell m (deferred_calls opts)))

-- `run`.
unfoldable pub run : Options → Meets → List Action
unfolding resolve_auth_with run_started
run opts m = elim (resolve_auth_with opts m.env m.password) [
  | inl _ ↦ exited 1 ∷ []
  | inr opts' ↦ elim m.open_self [
    | some _ ↦ exited 1 ∷ []
    | none ↦ elim m.start_pgwire [
      | some _ ↦ opened ∷ exited 1 ∷ []
      | none ↦ opened ∷ started_pgwire ∷ run_started opts' m
    ]
  ]
]

-- `printBanner`, of the base of the file that data was found in.
unfoldable pub print_banner : Text → Options → Option Text → Printed
print_banner version opts found =
    if opts.quiet
    then silent
    else also (note (codes "ExecDB v" ++ version)) (
        also
          (elim found [
            | some name ↦ note (codes "Loaded snapshot: " ++ name)
            | none ↦ note (codes "No embedded data. Starting with an empty in-memory database.")
          ])
          (also
            (if is_empty opts.pg_addr
              then silent
              else note
                  (codes "Listening on " ++ (opts.pg_addr ++ codes " (PostgreSQL wire protocol)")))
            (also
              (if is_empty opts.socket
                then silent
                else note (codes "Listening on " ++ (opts.socket ++ codes " (UNIX Domain Socket)")))
              (also
                (if not (is_empty opts.user)
                    && (not (is_empty opts.pg_addr) || not (is_empty opts.socket))
                  then note (
                      codes "External I/F authentication required (user: "
                      ++ (opts.user ++ codes ")"))
                  else silent)
                (if opts.no_repl
                  then note
                      (codes "Running in server mode (--no-repl). Send SIGTERM to save and exit.")
                  else note (codes "Enter \".help\" for usage hints."))))))

module _ {W : Type 0} (sys : System W) (opts : Options) where
  abbrev pub default_path : W → Text
  default_path w = resolve_snapshot_filename (sys.host w) opts [] opts.timestamp

  -- `autoSaveOnShutdown`, with the exit's code.
  unfoldable pub auto_save_on_shutdown : W → W × (Printed × ℕ)
  auto_save_on_shutdown w =
      let (w', e) = sys.snapshot w (default_path w) in
      elim e [
        | some message ↦ (w', (note (codes "Error saving snapshot: " ++ message), 1))
        | none ↦ (w', (note (codes "Saved snapshot to " ++ default_path w), 0))
      ]

  -- One tick of `runSnapshotInterval`.
  unfoldable pub tick : W → W × Printed
  tick w =
      let (w', e) = sys.snapshot w (default_path w) in
      elim e [
        | some message ↦ (w', note (codes "Error saving periodic snapshot: " ++ message))
        | none ↦ (w', note (codes "Saved periodic snapshot to " ++ default_path w))
      ]

  -- `runSnapshotInterval`, of the ticks up to the stop and of what happens before each.
  unfoldable pub run_snapshot_interval : List (W → W) → W → W × Printed
  unfolding tick
  run_snapshot_interval [] w = (w, silent)
  run_snapshot_interval (before ∷ rest) w =
      let (w', p) = tick (before w) in
      let (w'', q) = run_snapshot_interval rest w' in (w'', also p q)
