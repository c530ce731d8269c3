-- ===== src/Sql/Scan/Laws.antt =====
-- cmd/execdb/access.go: lemmas on `scanStatements`, read piece by piece.
use execdb.Prelude.{
  ℕ, List, [], ◌∷◌, ◌++◌, Option, none, some, head?, Text, ◌≡◌, refl, sym, ap, ◌∙◌, arith,
  append-nil, append_assoc,
}
use execdb.Sql.Lexer.{Mode, top, next}
use execdb.Sql.Scan.Defs.{Scan, start, scan_rune, scan, scan_statements}

-- The statements with the `;` behind each.
abbrev pub joined : List Text → Text
joined [] = []
joined (s ∷ ss) = s ++ (b';' ∷ joined ss)

pub joined-concat :
    (ss : List Text) (t : Text) → joined (ss ++ (t ∷ [])) ≡ joined ss ++ (t ++ (b';' ∷ []))
joined-concat [] t = refl
joined-concat (s ∷ ss) t = simp (joined-concat ss t, append_assoc)

scan_rune-joined :
    (s : Scan) (c : ℕ) (ahead : Option ℕ)
    → joined (scan_rune s c ahead).stmts ++ (scan_rune s c ahead).cur
      ≡ (joined s.stmts ++ s.cur) ++ (c ∷ [])
unfolding scan_rune
scan_rune-joined s c ahead = ground (
  arith,
  joined-concat s.stmts s.cur,
  append-nil (joined (s.stmts ++ (s.cur ∷ []))),
  append_assoc (joined s.stmts) s.cur (c ∷ []),
)

scan-joined :
    (cs : Text) (s : Scan)
    → joined (scan s cs).stmts ++ (scan s cs).cur ≡ (joined s.stmts ++ s.cur) ++ cs
unfolding scan
scan-joined [] s = sym (append-nil _)
scan-joined (c ∷ cs) s =
    scan-joined cs (scan_rune s c (head? cs))
    ∙ rw (scan_rune-joined s c (head? cs)) (append_assoc _ (c ∷ []) cs)

-- The statements of `scanStatements`, each with its `;`, and the remainder spell the input.
pub scan_statements-joined :
    (sql : Text) → joined (scan_statements sql).0 ++ (scan_statements sql).1 ≡ sql
unfolding scan_statements
scan_statements-joined sql = scan-joined sql start

abbrev pub ahead_of : Text → Option ℕ → Option ℕ
ahead_of [] ahead = ahead
ahead_of (c ∷ _) ahead = some c

-- `scan` on a piece of text with `ahead` behind it.
unfoldable pub scan_to : Scan → Text → Option ℕ → Scan
scan_to s [] ahead = s
scan_to s (c ∷ cs) ahead = scan_to (scan_rune s c (ahead_of cs ahead)) cs ahead

head?-append : (xs ys : Text) → head? (xs ++ ys) ≡ ahead_of xs (head? ys)
head?-append [] ys = refl
head?-append (c ∷ xs) ys = refl

pub scan-append :
    (xs : Text) (s : Scan) (ys : Text) → scan s (xs ++ ys) ≡ scan (scan_to s xs (head? ys)) ys
unfolding scan scan_to
scan-append [] s ys = refl
scan-append (c ∷ xs) s ys =
    ap (λ a. scan (scan_rune s c a) (xs ++ ys)) (head?-append xs ys)
    ∙ scan-append xs (scan_rune s c (ahead_of xs (head? ys))) ys

ahead_of-none : (xs : Text) → ahead_of xs none ≡ head? xs
ahead_of-none [] = refl
ahead_of-none (c ∷ xs) = refl

pub scan_to-none : (xs : Text) (s : Scan) → scan_to s xs none ≡ scan s xs
unfolding scan scan_to
scan_to-none [] s = refl
scan_to-none (c ∷ xs) s =
    ap (λ a. scan_to (scan_rune s c a) xs none) (ahead_of-none xs)
    ∙ scan_to-none xs (scan_rune s c (head? xs))

-- A `;` behind a rune changes nothing of how the rune is read.
next-semicolon : (m : Mode) (c : ℕ) → next m c (some b';') ≡ next m c none
unfolding next
next-semicolon top c = ground arith
next-semicolon _ c = ground arith

scan_rune-semicolon : (s : Scan) (c : ℕ) → scan_rune s c (some b';') ≡ scan_rune s c none
unfolding scan_rune
scan_rune-semicolon s c = rw (next-semicolon s.mode c)

scan_rune-ahead_semicolon :
    (s : Scan) (c : ℕ) (xs : Text)
    → scan_rune s c (ahead_of xs (some b';')) ≡ scan_rune s c (head? xs)
scan_rune-ahead_semicolon s c [] = scan_rune-semicolon s c
scan_rune-ahead_semicolon s c (x ∷ xs) = refl

pub scan_to-semicolon : (xs : Text) (s : Scan) → scan_to s xs (some b';') ≡ scan s xs
unfolding scan scan_to
scan_to-semicolon [] s = refl
scan_to-semicolon (c ∷ xs) s =
    ap (λ t. scan_to t xs (some b';')) (scan_rune-ahead_semicolon s c xs)
    ∙ scan_to-semicolon xs (scan_rune s c (head? xs))

abbrev prefixed : List Text → Scan → Scan
prefixed ss s = record s { stmts = ss ++ s.stmts }

scan_rune-prefixed :
    (ss : List Text) (s : Scan) (c : ℕ) (ahead : Option ℕ)
    → scan_rune (prefixed ss s) c ahead ≡ prefixed ss (scan_rune s c ahead)
unfolding scan_rune
scan_rune-prefixed ss s c ahead = ground (arith, append_assoc ss s.stmts (s.cur ∷ []))

-- Earlier statements only stand in front.
pub scan-prefixed :
    (cs : Text) (ss : List Text) (s : Scan)
    → scan (record s { stmts = ss ++ s.stmts }) cs
      ≡ record (scan s cs) { stmts = ss ++ (scan s cs).stmts }
unfolding scan
scan-prefixed [] ss s = refl
scan-prefixed (c ∷ cs) ss s =
    ap (λ t. scan t cs) (scan_rune-prefixed ss s c (head? cs))
    ∙ scan-prefixed cs ss (scan_rune s c (head? cs))
