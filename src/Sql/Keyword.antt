-- ===== src/Sql/Keyword.antt =====
-- cmd/execdb/access.go: `firstKeyword`, `matchesWordAt`, `hasReturningClause` and
-- `looksLikeRowReturning`.
use execdb.Prelude.{
  ℕ, Bool, true, false, not, ◌&&◌, ◌||◌, List, [], ◌∷◌, Option, none, some, ◌==◌, if◌then◌else◌,
  head?, Text, codes, within, eq_text, trim_left, to_upper,
}
use execdb.Sql.Lexer.{Mode, top, next, is_top, is_rune}

-- The cutset " \t\r\n".
abbrev pub is_cut : ℕ → Bool
is_cut c = c == b' ' || c == b'\t' || c == b'\r' || c == b'\n'

unfoldable pub is_ascii_letter : ℕ → Bool
is_ascii_letter b = within b'a' b'z' b || within b'A' b'Z' b

-- The letters at the front, in upper case.
unfoldable pub leading_word : Text → Text
unfolding is_ascii_letter to_upper
leading_word [] = []
leading_word (c ∷ cs) = if is_ascii_letter c then to_upper c ∷ leading_word cs else []

-- Where the loop of `firstKeyword` stands: trimming, looking for the end of the line, looking for
-- "*/", or before the / of one. `strings.Index(s, "*/")` looks from the / of the opening "/*" on.
pub data Skip : Type 0 where
  trimming to_newline to_close before_slash : Skip

abbrev pub opens_comment : ℕ → Option ℕ → Bool
opens_comment c ahead = (c == b'-' && is_rune b'-' ahead) || (c == b'/' && is_rune b'*' ahead)

-- A rune at which the loop ends, and the keyword begins if there is one.
abbrev pub is_word_start : Skip → ℕ → Option ℕ → Bool
is_word_start trimming c ahead = not (is_cut c) && not (opens_comment c ahead)
is_word_start _ c ahead = false

abbrev pub next_skip : Skip → ℕ → Option ℕ → Skip
next_skip trimming c ahead =
    if is_cut c then trimming else if c == b'-' then to_newline else to_close
next_skip to_newline c ahead = if c == b'\n' then trimming else to_newline
next_skip to_close c ahead = if c == b'*' && is_rune b'/' ahead then before_slash else to_close
next_skip before_slash c ahead = trimming

unfoldable pub keyword_from : Skip → Text → Text
unfolding leading_word
keyword_from m [] = []
keyword_from m (c ∷ cs) =
    let rest = keyword_from (next_skip m c (head? cs)) cs in
    if is_word_start m c (head? cs) then leading_word (c ∷ cs) else rest

unfoldable pub first_keyword : Text → Text
unfolding keyword_from
first_keyword stmt = keyword_from trimming stmt

unfoldable pub is_word_rune : ℕ → Bool
is_word_rune r = within b'a' b'z' r || within b'A' b'Z' r || within b'0' b'9' r || r == b'_'

-- No word rune here, which is so before the start and behind the end of the runes too.
abbrev pub is_boundary : Option ℕ → Bool
is_boundary none = true
is_boundary (some r) = not (is_word_rune r)

-- The word, case-insensitively, at the front of what is left, and a boundary behind it.
unfoldable pub word_ahead : Text → Text → Bool
unfolding to_upper is_word_rune
word_ahead runes [] = is_boundary (head? runes)
word_ahead [] (w ∷ ws) = false
word_ahead (r ∷ rs) (w ∷ ws) = to_upper r == w && word_ahead rs ws

-- `matchesWordAt`, with the rune before the place and the runes from there on.
unfoldable pub matches_word_at : Option ℕ → Text → Text → Bool
unfolding word_ahead is_word_rune
matches_word_at before runes word = is_boundary before && word_ahead runes word

abbrev returning : Text
returning = codes "RETURNING"

unfoldable pub returning_from : Mode → Option ℕ → Text → Bool
unfolding next matches_word_at
returning_from m before [] = false
returning_from m before (c ∷ cs) =
    let m' = next m c (head? cs) in
    (is_top m && is_top m' && matches_word_at before (c ∷ cs) returning)
    || returning_from m' (some c) cs

unfoldable pub has_returning_clause : Text → Bool
unfolding returning_from
has_returning_clause stmt = returning_from top none stmt

abbrev pub any_text : Text → List Text → Bool
any_text w [] = false
any_text w (x ∷ xs) = eq_text w x || any_text w xs

abbrev pub row_keywords : List Text
row_keywords =
    codes "SELECT" ∷ codes "PRAGMA" ∷ codes "EXPLAIN" ∷ codes "VALUES" ∷ codes "WITH" ∷ []

abbrev pub dml_keywords : List Text
dml_keywords = codes "INSERT" ∷ codes "UPDATE" ∷ codes "DELETE" ∷ []

-- The cutset "( \t\r\n".
abbrev is_paren_cut : ℕ → Bool
is_paren_cut c = c == b'(' || is_cut c

unfoldable pub looks_like_row_returning : Text → Bool
unfolding first_keyword has_returning_clause eq_text trim_left
looks_like_row_returning stmt =
    let kw = first_keyword (trim_left is_paren_cut stmt) in
    if any_text kw row_keywords
    then true
    else if any_text kw dml_keywords
    then has_returning_clause stmt
    else false
