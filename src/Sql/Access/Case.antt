-- ===== src/Sql/Access/Case.antt =====
-- cmd/execdb/access.go: `checkExternalAccess` and the case of letters.
use execdb.Prelude.{
  ℕ, List, [], ◌∷◌, Option, none, some, head?, Text, map, ◌==◌, ◌≡◌, refl, sym, ap, ◌∙◌, arith,
  is_blank, is_space, to_lower, to_upper,
}
use mathlib.Core.List.{map-append}
use execdb.Sql.Lexer.{Mode, top, next}
use execdb.Sql.Scan.{Scan, start, scan_rune, scan, scan_statements, split_statements}
use execdb.Sql.Keyword.{keyword_from, leading_word, Skip, trimming, next_skip, is_word_start}
use execdb.Sql.Access.Defs.{check_statement, check_statements, check_external_access}

abbrev lower : Text → Text
lower = map to_lower

abbrev lower? : Option ℕ → Option ℕ
lower? none = none
lower? (some c) = some (to_lower c)

head?-lower : (s : Text) → head? (lower s) ≡ lower? (head? s)
head?-lower [] = refl
head?-lower (c ∷ s) = refl

next-to_lower :
    (m : Mode) (c : ℕ) (ahead : Option ℕ) → next m (to_lower c) (lower? ahead) ≡ next m c ahead
unfolding next to_lower
next-to_lower top c none = ground arith
next-to_lower _ c none = ground arith
next-to_lower _ c (some d) = ground arith

semicolon-to_lower : (c : ℕ) → (to_lower c == b';') ≡ (c == b';')
unfolding to_lower
semicolon-to_lower c = ground arith

abbrev lower_scan : Scan → Scan
lower_scan s = record s { cur = lower s.cur; stmts = map lower s.stmts }

scan_rune-to_lower :
    (s : Scan) (c : ℕ) (ahead : Option ℕ)
    → scan_rune (lower_scan s) (to_lower c) (lower? ahead) ≡ lower_scan (scan_rune s c ahead)
unfolding scan_rune
scan_rune-to_lower s c ahead = ground (
  arith,
  semicolon-to_lower c,
  next-to_lower s.mode c ahead,
  map-append to_lower s.cur (c ∷ []),
  map-append lower s.stmts (s.cur ∷ []),
)

scan-lower : (cs : Text) (s : Scan) → scan (lower_scan s) (lower cs) ≡ lower_scan (scan s cs)
unfolding scan
scan-lower [] s = refl
scan-lower (c ∷ cs) s =
    rw (head?-lower cs, scan)
      (ap (λ t. scan t (lower cs)) (scan_rune-to_lower s c (head? cs))
        ∙ scan-lower cs (scan_rune s c (head? cs)))

is_blank-lower : (s : Text) → is_blank (lower s) ≡ is_blank s
unfolding is_blank is_space to_lower
is_blank-lower [] = refl
is_blank-lower (c ∷ s) = ground (arith, is_blank-lower s)

split_statements-lower :
    (sql : Text) → split_statements (lower sql) ≡ map lower (split_statements sql)
unfolding split_statements scan_statements
split_statements-lower sql = ground (
  arith,
  scan-lower sql start,
  is_blank-lower (scan start sql).cur,
  map-append lower (scan start sql).stmts ((scan start sql).cur ∷ []),
)

leading_word-lower : (s : Text) → leading_word (lower s) ≡ leading_word s
unfolding leading_word to_lower to_upper
leading_word-lower [] = refl
leading_word-lower (c ∷ s) = ground (arith, leading_word-lower s)

next_skip-to_lower :
    (m : Skip) (c : ℕ) (ahead : Option ℕ)
    → (next_skip m (to_lower c) (lower? ahead) ≡ next_skip m c ahead)
      × (is_word_start m (to_lower c) (lower? ahead) ≡ is_word_start m c ahead)
unfolding to_lower
next_skip-to_lower trimming c none = ground arith
next_skip-to_lower _ c none = ground arith
next_skip-to_lower _ c (some d) = ground arith

keyword_from-lower : (m : Skip) (s : Text) → keyword_from m (lower s) ≡ keyword_from m s
unfolding keyword_from
keyword_from-lower m [] = refl
keyword_from-lower m (c ∷ s) = ground (
  arith,
  head?-lower s,
  leading_word-lower (c ∷ s),
  next_skip-to_lower m c (head? s),
  keyword_from-lower (next_skip m c (head? s)) s,
)

check_statement-lower : (s : Text) → check_statement (lower s) ≡ check_statement s
unfolding check_statement
check_statement-lower s = rw (is_blank-lower s, keyword_from-lower trimming s)

check_statements-lower : (ss : List Text) → check_statements (map lower ss) ≡ check_statements ss
unfolding check_statements
check_statements-lower [] = refl
check_statements-lower (s ∷ ss) = ground (arith, check_statement-lower s, check_statements-lower ss)

check-lower : (sql : Text) → check_external_access (lower sql) ≡ check_external_access sql
unfolding check_external_access
check-lower sql = rw (split_statements-lower sql) (check_statements-lower (split_statements sql))

-- Two texts that differ only in the case of ASCII letters get the same answer of
-- `checkExternalAccess`.
pub check-case_insensitive :
    (a b : Text)
    → map to_lower a ≡ map to_lower b
    → check_external_access a ≡ check_external_access b
check-case_insensitive a b h = sym (check-lower a) ∙ rw h (check-lower b)
