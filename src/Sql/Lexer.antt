-- ===== src/Sql/Lexer.antt =====
-- cmd/execdb/access.go: the inner loops of `scanStatements`, `hasReturningClause` and, in
-- cmd/execdb/pgextended.go, `countPlaceholders`, which skip the same literals and comments. The
-- loop that a rune belongs to is a mode, and `next` gives the mode of the rune behind it.
-- A text is the list of its runes.
use execdb.Prelude.{ℕ, Bool, true, false, ◌&&◌, Option, none, some, ◌==◌, if◌then◌else◌}

pub data Mode : Type 0 where
  top : Mode
  in_string : Mode  -- behind an opening '
  in_escape : Mode  -- before the second ' of a doubled one
  in_ident : Mode  -- behind an opening "
  in_line : Mode  -- behind the first - of --
  open_block : Mode  -- before the * of /*
  in_block : Mode  -- behind /*
  close_block : Mode  -- before the / of */

-- `i < n && runes[i] == c`.
abbrev pub is_rune : ℕ → Option ℕ → Bool
is_rune c none = false
is_rune c (some d) = d == c

-- The switch of the outer loop.
abbrev pub next_top : ℕ → Option ℕ → Mode
next_top c ahead =
    if c == b'\''
    then in_string
    else if c == b'"'
    then in_ident
    else if c == b'-' && is_rune b'-' ahead
    then in_line
    else if c == b'/' && is_rune b'*' ahead
    then open_block
    else top

unfoldable pub next : Mode → ℕ → Option ℕ → Mode
next top c ahead = next_top c ahead
next in_string c ahead =
    if c == b'\'' then (if is_rune b'\'' ahead then in_escape else top) else in_string
next in_escape c ahead = in_string
next in_ident c ahead = if c == b'"' then top else in_ident
next in_line c ahead = if is_rune b'\n' ahead then top else in_line
next open_block c ahead = in_block
next in_block c ahead = if c == b'*' && is_rune b'/' ahead then close_block else in_block
next close_block c ahead = top

abbrev pub is_top : Mode → Bool
is_top top = true
is_top _ = false
