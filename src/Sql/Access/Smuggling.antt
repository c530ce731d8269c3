-- ===== src/Sql/Access/Smuggling.antt =====
-- cmd/execdb/access.go: `checkExternalAccess` on a text of several statements.
use execdb.Prelude.{
  true, List, [], ◌∷◌, ◌++◌, Option, none, some, if◌then◌else◌, head?, Text, ◌≡◌, refl, sym, ap,
  ◌∙◌, arith, append-nil, is_blank, not, Bool-cases, inl, inr,
}
use execdb.Sql.Lexer.{top}
use execdb.Sql.Scan.{
  Scan, start, scan_rune, scan, scan_statements, split_statements, scan-append, scan_to-semicolon,
  scan-prefixed,
}
use execdb.Sql.Access.Defs.{AccessDenied, check_statement, check_statements, check_external_access}

-- The first denial of two.
abbrev pub or_else : Option AccessDenied → Option AccessDenied → Option AccessDenied
or_else none e = e
or_else (some d) e = some d

check_statements-append :
    (xs ys : List Text)
    → check_statements (xs ++ ys) ≡ or_else (check_statements xs) (check_statements ys)
unfolding check_statements
check_statements-append [] ys = refl
check_statements-append (x ∷ xs) ys = ground (arith, check_statements-append xs ys)

or_else-none : (e : Option AccessDenied) → or_else e none ≡ e
or_else-none none = refl
or_else-none (some d) = refl

or_else_assoc : (a b c : Option AccessDenied) → or_else (or_else a b) c ≡ or_else a (or_else b c)
or_else_assoc none b c = refl
or_else_assoc (some d) b c = refl

check_statement-blank : (t : Text) → is_blank t ≡ true → check_statement t ≡ none
unfolding check_statement
check_statement-blank t h = rw h

check_statements-one : (t : Text) → check_statements (t ∷ []) ≡ check_statement t
unfolding check_statements
check_statements-one t = unfold check_statements in ground arith

-- What the check sees of a scanned text: a blank remainder is passed over either way.
check-statements_and_rest :
    (ss : List Text) (t : Text)
    → check_statements (if not (is_blank t) then ss ++ (t ∷ []) else ss)
      ≡ or_else (check_statements ss) (check_statement t)
check-statements_and_rest ss t = elim (Bool-cases (is_blank t)) [
  | inl blank ↦ rw (blank, check_statement-blank t blank) (sym (or_else-none (check_statements ss)))
  | inr text ↦ rw text (
      check_statements-append ss (t ∷ [])
      ∙ ap (or_else (check_statements ss)) (check_statements-one t))
]

pub check-scan :
    (sql : Text)
    → check_external_access sql
      ≡ or_else (check_statements (scan start sql).stmts) (check_statement (scan start sql).cur)
unfolding check_external_access split_statements scan_statements
check-scan sql = check-statements_and_rest (scan start sql).stmts (scan start sql).cur

ended :
    (t : Scan) (b : Text)
    → t.mode ≡ top
    → scan_rune t b';' (head? b) ≡ record start { stmts = (t.stmts ++ (t.cur ∷ [])) ++ [] }
unfolding scan_rune
ended t b h = rw (h, append-nil)

semicolon_at_top :
    (t : Scan) (b : Text)
    → t.mode ≡ top
    → scan t (b';' ∷ b)
      ≡ record (scan start b) { stmts = (t.stmts ++ (t.cur ∷ [])) ++ (scan start b).stmts }
unfolding scan
semicolon_at_top t b h =
    ap (λ s. scan s b) (ended t b h) ∙ scan-prefixed b (t.stmts ++ (t.cur ∷ [])) start

-- Behind a text that is in no literal or comment, a `;` ends its last statement.
scan-semicolon :
    (a b : Text)
    → (scan start a).mode ≡ top
    → scan start (a ++ (b';' ∷ b)) ≡ record (scan start b) {
      stmts = ((scan start a).stmts ++ ((scan start a).cur ∷ [])) ++ (scan start b).stmts;
    }
scan-semicolon a b h =
    scan-append a start (b';' ∷ b)
    ∙ rw (scan_to-semicolon a start) (semicolon_at_top (scan start a) b h)

-- For a text whose literals and comments are all closed, a `;` and any text behind it, the answer
-- of `checkExternalAccess` is the first denial in the first text, or else the answer on the second
-- text alone.
pub check-semicolon :
    (a b : Text)
    → (scan start a).mode ≡ top
    → check_external_access (a ++ (b';' ∷ b))
      ≡ or_else (check_external_access a) (check_external_access b)
check-semicolon a b h =
    check-scan (a ++ (b';' ∷ b))
    ∙ rw (scan-semicolon a b h) (
        rw check_statements-append (
          rw check_statements-append
            (rw check_statements-one (rw (check-scan a, check-scan b) (rw or_else_assoc)))))
