-- ===== src/Repl/Interrupts/Laws.antt =====
-- cmd/execdb/interrupt.go: runs of interrupts and lines.
use execdb.Prelude.{Bool, true, false, ◌||◌, List, [], ◌∷◌}
use execdb.Repl.Interrupts.{Interrupts, Event, interrupt, line, ended, idle, begun}

-- Whether two interrupts come with no new line between them, where `before` says that one came
-- already.
abbrev pub twice : Bool → List Event → Bool
twice before [] = false
twice before (interrupt ∷ es) = before || twice true es
twice before (line ∷ es) = twice false es
twice before (ended ∷ es) = twice before es
twice before (idle ∷ es) = twice before es
twice before (begun q ∷ es) = twice before es
