-- ===== src/Repl/DotCommand.antt =====
-- cmd/execdb/dotcmd.go: a dot command's line, split into its name and its arguments.
pub mod Laws
use execdb.Prelude.{
  ℕ, Bool, true, false, not, ◌&&◌, ◌||◌, Option, none, some, ◌==◌, if◌then◌else◌, List, [], ◌∷◌,
  is_empty, ◌++◌, Text,
}

-- Which loop of `splitDotCommandArgs` is running: the outer one, the one behind a ' or a ", or the
-- step over a backslash in either.
pub data Quoting : Type 0 where
  plain single double plain_escape double_escape : Quoting

-- The variables of the loop: `fields`, `cur` and `inField`.
pub record Split : Type 0 where
  pub quoting : Quoting
  pub fields : List Text
  pub cur : Text
  pub in_field : Bool

abbrev pub start : Split
start = record { quoting = plain; fields = []; cur = []; in_field = false }

-- A rune that goes into the field.
abbrev write_rune : Split → Quoting → ℕ → Split
write_rune s q c = record {
  quoting = q;
  fields = s.fields;
  cur = s.cur ++ (c ∷ []);
  in_field = true;
}

abbrev pub finish : Split → Split
finish s =
    if s.in_field
    then record { quoting = plain; fields = s.fields ++ (s.cur ∷ []); cur = []; in_field = false }
    else s

-- One rune in the outer loop, and whether it is the last.
unfoldable pub plain_rune : Split → ℕ → Bool → Split
plain_rune s c last =
    if c == b' ' || c == b'\t'
    then finish s
    else if c == b'\''
    then record s { quoting = single; in_field = true }
    else if c == b'"'
    then record s { quoting = double; in_field = true }
    else if c == b'\\' && not last
    then record s { quoting = plain_escape; in_field = true }
    else write_rune s plain c

unfoldable pub split_rune : Quoting → Split → ℕ → Bool → Split
unfolding plain_rune
split_rune plain s c last = plain_rune s c last
split_rune plain_escape s c last = write_rune s plain c
split_rune single s c last =
    if c == b'\'' then record s { quoting = plain } else write_rune s single c
split_rune double s c last =
    if c == b'"'
    then record s { quoting = plain }
    else if c == b'\\' && not last
    then record s { quoting = double_escape }
    else write_rune s double c
split_rune double_escape s c last = write_rune s double c

unfoldable pub split : Split → Text → Split
unfolding split_rune
split s [] = s
split s (c ∷ cs) = split (split_rune s.quoting s c (is_empty cs)) cs

-- The end of `splitDotCommandArgs`; `none` is an error. A quote that is still open is one.
unfoldable pub fields_of : Split → Option (List Text)
fields_of s = elim s.quoting [
  | single ↦ none
  | double ↦ none
  | double_escape ↦ none
  | plain ↦ if is_empty (finish s).fields then none else some (finish s).fields
  | plain_escape ↦ if is_empty (finish s).fields then none else some (finish s).fields
]

-- `splitDotCommandArgs`.
unfoldable pub split_dot_command_args : Text → Option (List Text)
unfolding split fields_of
split_dot_command_args line = fields_of (split start line)

-- `parseDotCommand`.
unfoldable pub parse_dot_command : Text → Option (Text × List Text)
unfolding split_dot_command_args
parse_dot_command line = elim (split_dot_command_args line) [
  | none ↦ none
  | some [] ↦ none
  | some (cmd ∷ args) ↦ some (cmd, args)
]
