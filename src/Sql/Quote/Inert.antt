-- ===== src/Sql/Quote/Inert.antt =====
-- cmd/execdb/access.go: texts that the scanner takes into the current statement whole.
use execdb.Prelude.{
  ℕ, Bool, true, false, not, ◌&&◌, ◌||◌, List, [], ◌∷◌, ◌++◌, Option, none, ◌==◌, Text, ◌≡◌, refl,
  ap, ◌∙◌, arith, Bool-cases, inl, inr, append-nil, append_assoc,
}
use execdb.Sql.Lexer.{Mode, top, in_ident, next}
use execdb.Sql.Scan.{Scan, start, scan_rune, scan_statements, ahead_of, scan_to, scan_to-none}
use execdb.Sql.Quote.Defs.{double_quotes, quote_ident}

abbrev pub at : Mode → Text → List Text → Scan
at m cur stmts = record { mode = m; cur = cur; stmts = stmts }

abbrev pub IsInert : Text → Type 0
IsInert t =
    (ahead : Option ℕ) (cur : Text) (stmts : List Text)
    → scan_to (at top cur stmts) t ahead ≡ at top (cur ++ t) stmts

ahead_of-append :
    (xs ys : Text) (ahead : Option ℕ) → ahead_of (xs ++ ys) ahead ≡ ahead_of xs (ahead_of ys ahead)
ahead_of-append [] ys ahead = refl
ahead_of-append (c ∷ xs) ys ahead = refl

scan_to-append :
    (xs ys : Text) (s : Scan) (ahead : Option ℕ)
    → scan_to s (xs ++ ys) ahead ≡ scan_to (scan_to s xs (ahead_of ys ahead)) ys ahead
unfolding scan_to
scan_to-append [] ys s ahead = refl
scan_to-append (c ∷ xs) ys s ahead =
    ap (λ a. scan_to (scan_rune s c a) (xs ++ ys) ahead) (ahead_of-append xs ys ahead)
    ∙ scan_to-append xs ys (scan_rune s c (ahead_of xs (ahead_of ys ahead))) ahead

pub IsInert-append : (a b : Text) → IsInert a → IsInert b → IsInert (a ++ b)
IsInert-append a b ha hb ahead cur stmts =
    scan_to-append a b (at top cur stmts) ahead
    ∙ ap (λ s. scan_to s b ahead) (ha (ahead_of b ahead) cur stmts)
    ∙ hb ahead (cur ++ a) stmts
    ∙ ap (λ t. at top t stmts) (append_assoc cur a b)

-- A rune that opens nothing and ends nothing.
abbrev pub is_plain : ℕ → Bool
is_plain c = not (c == b'\'' || c == b'"' || c == b'-' || c == b'/' || c == b';')

abbrev pub all_plain : Text → Bool
all_plain [] = true
all_plain (c ∷ cs) = is_plain c && all_plain cs

scan_rune-is_plain :
    (c : ℕ) (ahead : Option ℕ) (cur : Text) (stmts : List Text)
    → is_plain c ≡ true
    → scan_rune (at top cur stmts) c ahead ≡ at top (cur ++ (c ∷ [])) stmts
unfolding scan_rune next
scan_rune-is_plain c ahead cur stmts h = ground arith

pub IsInert-plain : (t : Text) → all_plain t ≡ true → IsInert t
unfolding scan_to
IsInert-plain [] h ahead cur stmts = rw append-nil
IsInert-plain (c ∷ cs) h ahead cur stmts =
    ap (λ s. scan_to s cs ahead) (scan_rune-is_plain c (ahead_of cs ahead) cur stmts (ground arith))
    ∙ IsInert-plain cs (ground arith) ahead (cur ++ (c ∷ [])) stmts
    ∙ ap (λ t. at top t stmts) (append_assoc cur (c ∷ []) cs)

scan_rune_in_ident :
    (c : ℕ) (ahead : Option ℕ) (cur : Text) (stmts : List Text)
    → (c == b'"') ≡ false
    → scan_rune (at in_ident cur stmts) c ahead ≡ at in_ident (cur ++ (c ∷ [])) stmts
unfolding scan_rune
scan_rune_in_ident c ahead cur stmts h = rw h

-- Inside an identifier, up to its closing quote.
scan_to-double_quotes :
    (name : Text) (ahead : Option ℕ) (cur : Text) (stmts : List Text)
    → scan_to (at in_ident cur stmts) (double_quotes name ++ (b'"' ∷ [])) ahead
      ≡ at top (cur ++ (double_quotes name ++ (b'"' ∷ []))) stmts
unfolding scan_to scan_rune double_quotes
scan_to-double_quotes [] ahead cur stmts = refl
scan_to-double_quotes (c ∷ name) ahead cur stmts = elim (Bool-cases (c == b'"')) [
  | inl quote ↦ rw quote (
      scan_to-double_quotes name ahead ((cur ++ (b'"' ∷ [])) ++ (b'"' ∷ [])) stmts
      ∙ ap (λ t. at top t stmts) (simp append_assoc))
  | inr other ↦ rw other (
      ap (λ s. scan_to s (double_quotes name ++ (b'"' ∷ [])) ahead)
        (scan_rune_in_ident c (ahead_of (double_quotes name ++ (b'"' ∷ [])) ahead) cur stmts other)
      ∙ scan_to-double_quotes name ahead (cur ++ (c ∷ [])) stmts
      ∙ ap (λ t. at top t stmts) (append_assoc cur (c ∷ []) _))
]

pub quote_ident-IsInert : (name : Text) → IsInert (quote_ident name)
quote_ident-IsInert name ahead cur stmts =
    unfold scan_to scan_rune quote_ident in
    scan_to-double_quotes name ahead (cur ++ (b'"' ∷ [])) stmts
    ∙ ap (λ t. at top t stmts) (append_assoc cur (b'"' ∷ []) _)

-- An inert text is one statement, and no `;` in it ends one.
pub scan_statements-IsInert : (t : Text) → IsInert t → scan_statements t ≡ ([], t)
unfolding scan_statements
scan_statements-IsInert t h = rw (← scan_to-none t start, h none [] [])
