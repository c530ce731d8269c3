-- ===== src/Sql/Scan/Defs.antt =====
-- cmd/execdb/access.go: `scanStatements` and `splitStatements`.
use execdb.Prelude.{
  ℕ, not, ◌&&◌, List, [], ◌∷◌, ◌++◌, Option, ◌==◌, if◌then◌else◌, head?, Text, is_blank,
}
use execdb.Sql.Lexer.{Mode, top, next, is_top}

-- The state of the loop at a rune: what is collected of the current statement, and the
-- statements that a top-level `;` has ended.
pub record Scan : Type 0 where
  pub mode : Mode
  pub cur : Text
  pub stmts : List Text

abbrev pub start : Scan
start = record { mode = top; cur = []; stmts = [] }

-- One rune, with the rune behind it.
unfoldable pub scan_rune : Scan → ℕ → Option ℕ → Scan
unfolding next
scan_rune s c ahead =
    if is_top s.mode && c == b';'
    then record { mode = top; cur = []; stmts = s.stmts ++ (s.cur ∷ []) }
    else record s { mode = next s.mode c ahead; cur = s.cur ++ (c ∷ []) }

unfoldable pub scan : Scan → Text → Scan
unfolding scan_rune
scan s [] = s
scan s (c ∷ cs) = scan (scan_rune s c (head? cs)) cs

-- `scanStatements`: the terminated statements, and the text behind the last of them.
unfoldable pub scan_statements : Text → List Text × Text
unfolding scan
scan_statements sql = let s = scan start sql in (s.stmts, s.cur)

unfoldable pub split_statements : Text → List Text
unfolding scan_statements
split_statements sql =
    let (stmts, remainder) = scan_statements sql in
    if not (is_blank remainder) then stmts ++ (remainder ∷ []) else stmts
