-- ===== src/Sql/Access/Hidden.antt =====
-- cmd/execdb/access.go: the comment that `/*/` opens, in `firstKeyword` and in the scanner.
use execdb.Prelude.{
  ℕ, true, false, List, [], ◌∷◌, ◌++◌, Option, none, Text, codes, ◌≡◌, refl, ◌∙◌, ap, is_space,
  head?, Bool-cases, inl, inr, ◌==◌, ◌&&◌, append_assoc,
}
use execdb.Sql.Lexer.{Mode, top, next, is_top}
use execdb.Sql.Scan.{
  start, scan_rune, scan, scan_statements, scan_to, scan-append, scan-prefixed,
  scan_statements-joined,
}
use execdb.Sql.Keyword.{first_keyword}
use execdb.Sql.Access.Defs.{AccessDenied, check_statement, check_statements, check_external_access}
use execdb.Sql.Access.Smuggling.{or_else, check-scan}
use execdb.Sql.Quote.{IsInert, at}

-- A comment, to the scanner; a comment and then a statement, to `firstKeyword`.
abbrev pub decoy : Text
decoy = codes "/*/SELECT*/"

scan_to-decoy : IsInert decoy
unfolding scan_to scan_rune
scan_to-decoy ahead cur stmts = simp append_assoc

not_ended :
    (c : ℕ) (ahead : Option ℕ) (m : Mode) (x y : Text)
    → ((is_top m && c == b';') ≡ false)
    → (scan_rune (at m x []) c ahead ≡ at (next m c ahead) (x ++ (c ∷ [])) [])
      × (scan_rune (at m y []) c ahead ≡ at (next m c ahead) (y ++ (c ∷ [])) [])
unfolding scan_rune
not_ended c ahead m x y h = (rw h, rw h)

ended :
    (c : ℕ) (ahead : Option ℕ) (m : Mode) (x : Text)
    → ((is_top m && c == b';') ≡ true)
    → scan_rune (at m x []) c ahead ≡ record start { stmts = (x ∷ []) ++ start.stmts }
unfolding scan_rune
ended c ahead m x h = rw h

-- Whether a statement ends does not depend on what was read of it before.
no_statements :
    (cs : Text) (m : Mode) (x y : Text)
    → (scan (at m x []) cs).stmts ≡ []
    → (scan (at m y []) cs).stmts ≡ []
unfolding scan
no_statements [] m x y h = refl
no_statements (c ∷ cs) m x y h = elim (Bool-cases (is_top m && c == b';')) [
  | inl e ↦ cc (ended c (head? cs) m x e, scan-prefixed cs (x ∷ []) start)
  | inr e ↦
      let (p, q) = not_ended c (head? cs) m x y e in
      rw (q, scan)
        (no_statements cs (next m c (head? cs)) (x ++ (c ∷ [])) (y ++ (c ∷ [])) (rw (p, scan) at h))
]

decoy-statements :
    (stmt : Text) → (scan_statements stmt).0 ≡ [] → (scan_statements (decoy ++ stmt)).0 ≡ []
unfolding scan_statements
decoy-statements stmt h =
    rw (scan-append decoy start stmt, scan_to-decoy (head? stmt) [] [])
      (no_statements stmt top [] decoy h)

scan_statements-none : (t : Text) → (scan_statements t).0 ≡ [] → scan_statements t ≡ ([], t)
scan_statements-none t h = cc (h, scan_statements-joined t)

no_earlier : (e : Option AccessDenied) → or_else (check_statements []) e ≡ e
unfolding check_statements
no_earlier e = refl

check-one : (t : Text) → scan_statements t ≡ ([], t) → check_external_access t ≡ check_statement t
unfolding scan_statements
check-one t h =
    check-scan t
    ∙ ap (λ (p : List Text × Text). or_else (check_statements p.0) (check_statement p.1)) h
    ∙ no_earlier (check_statement t)

-- Any single statement, DDL included, passes the check behind a comment `/*/SELECT*/`, which the
-- scanner takes whole for a comment.
pub check-decoy :
    (stmt : Text)
    → (scan_statements stmt).0 ≡ []
    → (scan_statements (decoy ++ stmt) ≡ ([], decoy ++ stmt))
      × (first_keyword (decoy ++ stmt) ≡ codes "SELECT")
      × (check_external_access (decoy ++ stmt) ≡ none)
unfolding check_statement is_space
check-decoy stmt h =
    let e = scan_statements-none (decoy ++ stmt) (decoy-statements stmt h) in
    (e, refl, check-one (decoy ++ stmt) e ∙ refl)
