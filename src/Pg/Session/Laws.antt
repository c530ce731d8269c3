-- ===== src/Pg/Session/Laws.antt =====
-- cmd/execdb/pgsession.go: SET, then SHOW.
use execdb.Prelude.{
  ℕ, false, [], ◌∷◌, ◌++◌, some, ◌==◌, if◌then◌else◌, Text, codes, eq_text, eq_text_refl, Map,
  lookup-insert, ◌≡◌, refl, arith,
}
use execdb.Pg.Types.{oid_text}
use execdb.Pg.Wire.{command_complete, row_description, data_row}
use execdb.Pg.Session.{
  single_quotes, drop_quote, unquote_set_value, handle_set, handle_show, match_set, match_show,
  lower,
}

-- A literal of SQL: a single quote doubled, and quotes around it.
abbrev pub doubled : Text → Text
doubled [] = []
doubled (c ∷ s) = if c == b'\'' then b'\'' ∷ b'\'' ∷ doubled s else c ∷ doubled s

abbrev pub literal : Text → Text
literal v = b'\'' ∷ (doubled v ++ (b'\'' ∷ []))

drop_quote-append : (s : Text) → drop_quote (s ++ (b'\'' ∷ [])) ≡ some s
unfolding drop_quote
drop_quote-append [] = refl
drop_quote-append (c ∷ []) = refl
drop_quote-append (c ∷ d ∷ s) = ground (arith, drop_quote-append (d ∷ s))

single_quotes-other :
    (c : ℕ) (t : Text) → (c == b'\'') ≡ false → single_quotes (c ∷ t) ≡ c ∷ single_quotes t
unfolding single_quotes
single_quotes-other c [] h = refl
single_quotes-other c (d ∷ t) h = ground arith

single_quotes-doubled : (v : Text) → single_quotes (doubled v) ≡ v
unfolding single_quotes
single_quotes-doubled [] = refl
single_quotes-doubled (c ∷ v) =
    ground (arith, single_quotes-other c (doubled v), single_quotes-doubled v)

pub unquote_set_value-literal : (v : Text) → unquote_set_value (literal v) ≡ v
unfolding unquote_set_value
unquote_set_value-literal v = ground (arith, drop_quote-append (doubled v), single_quotes-doubled v)

-- When a SET of a literal is understood, a SHOW of a name that is the same but for case, and is not
-- that of all, answers with the value of the literal, its quotes undone.
pub handle_show-handle_set :
    (params : Map Text) (set_stmt show_stmt : Text) {name shown v : Text}
    → match_set set_stmt ≡ some (name, literal v)
    → match_show show_stmt ≡ some shown
    → lower shown ≡ lower name
    → eq_text (lower name) (codes "all") ≡ false
    → handle_show (handle_set params set_stmt).0 show_stmt
      ≡ row_description (record { name = lower name; oid = oid_text; binary = false } ∷ [])
        ∷ data_row (some v ∷ [])
        ∷ command_complete (codes "SHOW")
        ∷ []
unfolding handle_set handle_show
handle_show-handle_set params set_stmt show_stmt {name} {shown} {v} hs hw e n = ground (
  arith,
  unquote_set_value-literal v,
  lookup-insert (lower name) (lower name) (unquote_set_value (literal v)) params,
  eq_text_refl (lower name),
)
