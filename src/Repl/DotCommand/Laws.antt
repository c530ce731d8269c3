-- ===== src/Repl/DotCommand/Laws.antt =====
-- cmd/execdb/dotcmd.go: lines of quoted words.
use execdb.Prelude.{
  true, false, ◌||◌, some, ◌==◌, if◌then◌else◌, List, [], ◌∷◌, ◌++◌, Text, append_assoc, append-nil,
  ◌≡◌, sym, ap, ◌∙◌, arith,
}
use execdb.Repl.DotCommand.{
  Split, plain, double, split, fields_of, split_dot_command_args, parse_dot_command,
}

-- A text in double quotes, with a backslash before each " and each \.
abbrev pub escape : Text → Text
escape [] = []
escape (c ∷ s) = if c == b'"' || c == b'\\' then b'\\' ∷ c ∷ escape s else c ∷ escape s

abbrev pub double_quoted : Text → Text
double_quoted s = b'"' ∷ (escape s ++ (b'"' ∷ []))

-- A line: each word in double quotes, and a space behind it.
abbrev pub line_of : List Text → Text
line_of [] = []
line_of (w ∷ ws) = double_quoted w ++ (b' ' ∷ line_of ws)

escape-split :
    (w : Text) (rest : Text) (fields : List Text) (cur : Text)
    → split
        (record { quoting = double; fields = fields; cur = cur; in_field = true })
        (escape w ++ (b'"' ∷ rest))
      ≡ split (record { quoting = plain; fields = fields; cur = cur ++ w; in_field = true }) rest
unfolding split
escape-split [] rest fields cur =
    ap (λ t. split (record { quoting = plain; fields = fields; cur = t; in_field = true }) rest)
      (sym (append-nil cur))
escape-split (c ∷ w) rest fields cur =
    ground (arith, append_assoc cur (c ∷ []) w, escape-split w rest fields (cur ++ (c ∷ [])))

line_of-split :
    (ws : List Text) (fields : List Text)
    → split (record { quoting = plain; fields = fields; cur = []; in_field = false }) (line_of ws)
      ≡ record { quoting = plain; fields = fields ++ ws; cur = []; in_field = false }
unfolding split
line_of-split [] fields =
    ap (λ t. record { quoting = plain; fields = t; cur = []; in_field = false })
      (sym (append-nil fields))
line_of-split (w ∷ ws) fields =
    let at_double : Text → Split =
      λ t. split (record { quoting = double; fields = fields; cur = []; in_field = true }) t in
    ap at_double (append_assoc (escape w) (b'"' ∷ []) (b' ' ∷ line_of ws))
    ∙ escape-split w (b' ' ∷ line_of ws) fields []
    ∙ line_of-split ws (fields ++ (w ∷ []))
    ∙ ap (λ t. record { quoting = plain; fields = t; cur = []; in_field = false })
        (append_assoc fields (w ∷ []) ws)

-- A line of words in double quotes comes apart into the same words, empty ones, blanks and quotes
-- included.
pub parse_dot_command-line_of :
    (cmd : Text) (args : List Text) → parse_dot_command (line_of (cmd ∷ args)) ≡ some (cmd, args)
unfolding parse_dot_command split_dot_command_args fields_of
parse_dot_command-line_of cmd args = ground (arith, line_of-split (cmd ∷ args) [])
