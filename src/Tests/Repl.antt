-- ===== src/Tests/Repl.antt =====
-- The shell's parsing and interrupts on concrete inputs.
use execdb.Repl.Interrupts.Laws.{twice}
use execdb.Prelude.{true, false, List, [], ◌∷◌, none, some, codes, ◌≡◌, refl}
use execdb.Repl.DotCommand.{parse_dot_command, split_dot_command_args}
use execdb.Repl.Interrupts.{Event, interrupt, line, begun, ended}

dot_commands :
    (parse_dot_command (codes ".import 'a b.csv'  t\\ 1")
      ≡ some (codes ".import", codes "a b.csv" ∷ codes "t 1" ∷ []))
    × (parse_dot_command (codes ".dump \"open") ≡ none)
    × (split_dot_command_args (codes "  ") ≡ none)
unfolding parse_dot_command
dot_commands = (refl, refl, refl)

abbrev pressed : List Event
pressed = begun 1 ∷ interrupt ∷ ended ∷ line ∷ interrupt ∷ interrupt ∷ []

exits_at_last : twice false pressed ≡ true
exits_at_last = refl
