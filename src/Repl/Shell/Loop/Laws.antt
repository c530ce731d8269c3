-- ===== src/Repl/Shell/Loop/Laws.antt =====
-- cmd/execdb/repl.go: what `run` does with the text that is typed, and when it returns.
use execdb.Prelude.{
  ℕ, Bool, true, false, ◌&&◌, Option, none, some, List, [], ◌∷◌, ◌++◌, All, Text, codes, is_empty,
  eq_text_iff, has_prefix, trim_space, ◌≡◌, ◌⊎◌, inl, inr, refl, arith, Bool-cases, Option-cases,
}
use execdb.Sql.Scan.{joined}
use execdb.Repl.Complete.{complete_statements}
use execdb.Repl.Complete.Laws.{Passed, complete_statements-joined, complete_statements-Passed}
use execdb.Repl.DotCommand.{parse_dot_command}
use execdb.Repl.Names.{Options}
use execdb.Repl.Output.{Printed, silent}
use execdb.Repl.System.{System}
use execdb.Repl.Shell.{Shell, Next, reads_on, returns, exits, cmd_exit}
use execdb.Repl.Shell.Commands.{cmd_overwrite}
use execdb.Repl.Shell.Loop.{
  Loop, Input, typed_line, idle, dot_command, handle_dot_command, exec_all, run_buffer, take_line,
  take_input, run,
}

Next-cases : (n : Next) → (n ≡ reads_on) ⊎ (n ≡ returns) ⊎ ((code : ℕ) × (n ≡ exits code))
Next-cases reads_on = inl refl
Next-cases returns = inr (inl refl)
Next-cases (exits code) = inr (inr (code, refl))

module _ {W : Type 0} (sys : System W) (opts : Options) where
  -- Nothing waits, or what waits is an open statement.
  abbrev pub Waiting : Loop W → Type 0
  Waiting st =
      (st.buf ≡ []) ⊎ (is_empty (trim_space (complete_statements sys.is_complete st.buf).1) ≡ false)

  run_buffer-Waiting : (typed : Text) (sh : Shell W) → Waiting (run_buffer sys opts typed sh).0
  unfolding run_buffer
  run_buffer-Waiting typed sh =
      let r = trim_space (complete_statements sys.is_complete typed).1 in
      elim (Bool-cases (is_empty r)) [
        | inl q ↦ inl (rw (q, run_buffer) refl)
        | inr q ↦ inr (rw (q, run_buffer) q)
      ]

  take_input-Waiting : (i : Input) (st : Loop W) → Waiting st → Waiting (take_input sys opts i st).0
  unfolding take_input take_line
  take_input-Waiting idle st h = inl refl
  take_input-Waiting (typed_line l) st h =
      elim (Bool-cases (is_empty st.buf && has_prefix (trim_space l) (codes "."))) [
        | inl q ↦ inl (rw (q, take_line) refl)
        | inr q ↦ elim (Bool-cases (is_empty st.buf && is_empty (trim_space l))) [
          | inl r ↦ rw (q, take_line) rw r h
          | inr r ↦
              rw (q, take_line) rw r (run_buffer-Waiting (st.buf ++ (l ++ (b'\n' ∷ []))) st.shell)
        ]
      ]

  -- Where nothing waits in the buffer, or what waits leaves a remainder that is not blank, the same
  -- holds behind any lines and interrupts that `run` takes.
  pub run-Waiting :
      (interactive : Bool) (is : List Input) (failed : Option Text) (st : Loop W)
      → Waiting st
      → Waiting (run sys opts interactive is failed st).0
  unfolding run
  run-Waiting interactive [] failed st h = h
  run-Waiting interactive (i ∷ is) failed st h =
      let k = take_input-Waiting i st h in
      let ih = run-Waiting interactive is failed (take_input sys opts i st).0 k in
      elim (Next-cases (take_input sys opts i st).1.1) [
        | inl q ↦ rw (q, run) ih
        | inr (inl q) ↦ rw (q, run) k
        | inr (inr (code, q)) ↦ rw (q, run) k
      ]

  -- The buffer is kept as it is, or all of its statements have run.
  abbrev pub Kept : Text → Shell W → Loop W × (Printed × Next) → Type 0
  Kept typed sh r = r ≡ (record { shell = sh; buf = typed }, (silent, reads_on))

  abbrev pub HasRun : Text → Shell W → Loop W × (Printed × Next) → Type 0
  HasRun typed sh r =
      (stmts : List Text) × (rest : Text) × (is_empty (trim_space rest) ≡ true)
      × ((joined stmts ++ rest ≡ typed) ⊎ (joined stmts ++ (rest ++ (b';' ∷ [])) ≡ typed))
      × All (Passed sys.is_complete) stmts
      × (r ≡ (
        record { shell = (exec_all sys opts stmts sh).0; buf = [] },
        ((exec_all sys opts stmts sh).1, reads_on),
      ))

  -- Where `Complete` takes `;` for whole, then whatever the buffer holds with the new line in it:
  -- either `run` keeps it as it is, runs nothing and prints nothing; or it runs statements that
  -- `Complete` takes for whole, in their order, and clears the buffer, and these statements, each
  -- with its `;`, and a blank rest spell the buffer, or do with one more `;` behind the rest.
  pub run_buffer-HasRun :
      (typed : Text) (sh : Shell W)
      → sys.is_complete (b';' ∷ []) ≡ true
      → Kept typed sh (run_buffer sys opts typed sh)
        ⊎ HasRun typed sh (run_buffer sys opts typed sh)
  unfolding run_buffer
  run_buffer-HasRun typed sh h =
      let c = complete_statements sys.is_complete typed in
      elim (Bool-cases (is_empty (trim_space c.1))) [
        | inr q ↦ inl (rw (q, run_buffer) refl)
        | inl q ↦ inr (
          c.0,
          c.1,
          q,
          complete_statements-joined sys.is_complete h typed,
          complete_statements-Passed sys.is_complete typed,
          rw (q, run_buffer) refl,
        )
      ]

  -- `.exit` or `.quit` alone, or an `.overwrite` that the database took.
  abbrev pub Leaves : Text → List Text → Shell W → Type 0
  Leaves cmd args sh =
      ((args ≡ []) × ((cmd ≡ codes ".exit") ⊎ (cmd ≡ codes ".quit")))
      ⊎ ((cmd ≡ codes ".overwrite") × ((sys.overwrite sh.world).1 ≡ none))

  dot_command-Leaves :
      (cmd : Text) (args : List Text) (sh : Shell W)
      → (dot_command sys opts cmd args sh).1.1 ≡ returns
      → Leaves cmd args sh
  unfolding dot_command cmd_exit cmd_overwrite
  dot_command-Leaves cmd args sh e =
      let f = (eq_text_iff cmd (codes ".exit")).0 in
      let g = (eq_text_iff cmd (codes ".quit")).0 in
      let h = (eq_text_iff cmd (codes ".overwrite")).0 in ground arith

  handle_dot_command-Leaves :
      (l : Text) (sh : Shell W)
      → (handle_dot_command sys opts l sh).1.1 ≡ returns
      → (cmd : Text) × (args : List Text) × (parse_dot_command l ≡ some (cmd, args))
        × Leaves cmd args sh
  unfolding handle_dot_command
  handle_dot_command-Leaves l sh e = elim (Option-cases (parse_dot_command l)) [
    | inl q ↦ absurd (ground arith)
    | inr ((cmd, args), q) ↦ (cmd, args, q, dot_command-Leaves cmd args sh (ground arith))
  ]

  run_buffer-reads_on :
      (typed : Text) (sh : Shell W) → (run_buffer sys opts typed sh).1.1 ≡ reads_on
  unfolding run_buffer
  run_buffer-reads_on typed sh = ground arith

  -- If a line makes the shell return, then nothing waited in the buffer, and the line is the
  -- command `.exit` or `.quit` with no argument, or `.overwrite`, and the executable was
  -- overwritten.
  pub take_line-Leaves :
      (l : Text) (st : Loop W)
      → (take_line sys opts l st).1.1 ≡ returns
      → (st.buf ≡ [])
        × (cmd : Text) × (args : List Text) × (parse_dot_command (trim_space l) ≡ some (cmd, args))
        × Leaves cmd args st.shell
  unfolding take_line
  take_line-Leaves l st e =
      elim (Bool-cases (is_empty st.buf && has_prefix (trim_space l) (codes "."))) [
        | inl q ↦
            let f : (handle_dot_command sys opts (trim_space l) st.shell).1.1 ≡ returns =
              ground arith in
            let (cmd, args, p, h) = handle_dot_command-Leaves (trim_space l) st.shell f in
            (ground arith, cmd, args, p, h)
        | inr q ↦
            let k = run_buffer-reads_on (st.buf ++ (l ++ (b'\n' ∷ []))) st.shell in
            absurd (ground arith)
      ]
