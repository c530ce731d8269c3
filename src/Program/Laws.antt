-- ===== src/Program/Laws.antt =====
-- cmd/execdb/main.go: a server that ends well has saved.
use execdb.Prelude.{ℕ, Bool, true, false, ◌||◌, ◌==◌, List, [], ◌∷◌, ◌≡◌, arith}
use execdb.Repl.Names.{Options, resolve_auth_with}
use execdb.Program.{Action, saved, exited, Meets, run_started, run}

abbrev pub is_exit_of : ℕ → Action → Bool
is_exit_of code (exited c) = c == code
is_exit_of code _ = false

abbrev pub is_save : Action → Bool
is_save saved = true
is_save _ = false

abbrev pub any_action : (Action → Bool) → List Action → Bool
any_action p [] = false
any_action p (a ∷ rest) = p a || any_action p rest

-- A server that exits with 0 has saved.
pub run-saved :
    (opts : Options) (m : Meets)
    → opts.no_repl ≡ true
    → any_action (is_exit_of 0) (run opts m) ≡ true
    → any_action is_save (run opts m) ≡ true
unfolding run run_started resolve_auth_with
run-saved opts m n e = ground arith
