-- ===== src/Pg/Session.antt =====
-- cmd/execdb/pgsession.go: the parameters of a session, which SET and SHOW write and read. The two
-- regular expressions are matched with their backtracking: a matcher tries its alternatives in order
-- and hands what is left to the next.
pub mod Laws
use execdb.Prelude.{
  ℕ, ◌+◌, ◌-◌, Bool, true, false, not, ◌&&◌, ◌||◌, List, [], ◌∷◌, ◌++◌, map, reverse, Option, none,
  some, ◌==◌, leb, if◌then◌else◌, Text, codes, eq_text, within, to_upper, to_lower, Map, lookup,
  insert, length,
}
use execdb.Pg.Types.{oid_text, Column}
use execdb.Pg.Wire.{
  Reply, error_response, sqlstate_generic, command_complete, row_description, data_row,
}

-- `\s`.
abbrev pub is_blank_rune : ℕ → Bool
is_blank_rune c = within 9 10 c || within 12 13 c || c == 32

-- The case folding of (?i), in which ſ is an S and the sign of the kelvin is a K.
unfoldable pub fold : ℕ → ℕ
unfolding to_upper
fold c = if c == 0x17f then b'S' else if c == 0x212a then b'K' else to_upper c

-- `[A-Za-z_]`.
unfoldable pub is_ident_start : ℕ → Bool
unfolding fold
is_ident_start c = within b'A' b'Z' (fold c) || c == b'_'

-- `[A-Za-z0-9_]`.
unfoldable pub is_ident_rune : ℕ → Bool
unfolding is_ident_start
is_ident_rune c = is_ident_start c || within b'0' b'9' c

abbrev pub or_else {ℓ} : {A : Type ℓ} → Option A → Option A → Option A
or_else none b = b
or_else (some a) b = some a

module _ {R : Type 0} where
  -- A word, in upper case.
  unfoldable pub word : Text → (Text → Option R) → Text → Option R
  unfolding fold
  word [] k s = k s
  word (w ∷ ws) k [] = none
  word (w ∷ ws) k (c ∷ s) = if fold c == w then word ws k s else none

  -- `\s*`, as long as can be.
  unfoldable pub blanks : (Text → Option R) → Text → Option R
  blanks k [] = k []
  blanks k (c ∷ s) = or_else (if is_blank_rune c then blanks k s else none) (k (c ∷ s))

  -- `\s+`.
  unfoldable pub blanks1 : (Text → Option R) → Text → Option R
  unfolding blanks
  blanks1 k [] = none
  blanks1 k (c ∷ s) = if is_blank_rune c then blanks k s else none

  -- `[A-Za-z0-9_]*`, behind the runes of the name so far, in reverse.
  unfoldable pub ident_more : Text → (Text → Text → Option R) → Text → Option R
  unfolding is_ident_rune
  ident_more name k [] = k (reverse name) []
  ident_more name k (c ∷ s) =
      or_else (if is_ident_rune c then ident_more (c ∷ name) k s else none)
        (k (reverse name) (c ∷ s))

  -- `([A-Za-z_][A-Za-z0-9_]*)`.
  unfoldable pub ident : (Text → Text → Option R) → Text → Option R
  unfolding ident_more is_ident_start
  ident k [] = none
  ident k (c ∷ s) = if is_ident_start c then ident_more (c ∷ []) k s else none

unfoldable pub all_blank : Text → Bool
all_blank [] = true
all_blank (c ∷ s) = is_blank_rune c && all_blank s

-- `.*?\s*$`, as short as can be.
unfoldable pub lazily : Text → Text
unfolding all_blank
lazily [] = []
lazily (c ∷ s) = if all_blank (c ∷ s) then [] else c ∷ lazily s

-- `(.+?)\s*$`.
unfoldable pub value_at_end : Text → Option Text
unfolding lazily
value_at_end [] = none
value_at_end (c ∷ s) = some (c ∷ lazily s)

-- `(?:TO|=)\s*(.+?)\s*$`.
unfoldable pub assigned : Text → Option Text
unfolding word blanks value_at_end
assigned s =
    or_else (word (codes "TO") (blanks value_at_end) s) (word (codes "=") (blanks value_at_end) s)

-- From the name of the parameter on.
unfoldable pub assignment : Text → Option (Text × Text)
unfolding ident blanks assigned
assignment s =
    let named : Text → Text → Option (Text × Text) =
      λ name. blanks (λ r. elim (assigned r) [ none ↦ none | some v ↦ some (name, v) ]) in
    ident named s

-- `setStmtRe`: the name and the value.
unfoldable pub match_set : Text → Option (Text × Text)
unfolding word blanks1 assignment
match_set stmt =
    let scoped : Text → Option (Text × Text) = λ s.
      or_else (word (codes "SESSION") (blanks1 assignment) s)
        (or_else (word (codes "LOCAL") (blanks1 assignment) s) (assignment s)) in
    word (codes "SET") (blanks1 scoped) stmt

-- `showStmtRe`: the name.
unfoldable pub match_show : Text → Option Text
unfolding word blanks1 ident all_blank
match_show stmt =
    let named : Text → Text → Option Text =
      λ name rest. if all_blank rest then some name else none in
    word (codes "SHOW") (blanks1 (ident named)) stmt

-- `strings.ToLower` of a name that the regular expressions match.
unfoldable pub lower : Text → Text
unfolding to_lower
lower [] = []
lower (c ∷ s) = (if c == 0x212a then b'k' else to_lower c) ∷ lower s

-- `strings.ReplaceAll(s, "''", "'")`.
unfoldable pub single_quotes : Text → Text
single_quotes [] = []
single_quotes (c ∷ []) = c ∷ []
single_quotes (c ∷ d ∷ s) =
    let paired = single_quotes s in
    let single = single_quotes (d ∷ s) in
    if c == b'\'' && d == b'\'' then b'\'' ∷ paired else c ∷ single

-- Up to the last rune, if that is a single quote.
unfoldable pub drop_quote : Text → Option Text
drop_quote [] = none
drop_quote (c ∷ []) = if c == b'\'' then some [] else none
drop_quote (c ∷ d ∷ s) = elim (drop_quote (d ∷ s)) [ none ↦ none | some t ↦ some (c ∷ t) ]

-- `unquoteSetValue`.
unfoldable pub unquote_set_value : Text → Text
unfolding drop_quote single_quotes
unquote_set_value [] = []
unquote_set_value (c ∷ s) =
    if c == b'\'' then elim (drop_quote s) [ none ↦ c ∷ s | some t ↦ single_quotes t ] else c ∷ s

unfoldable pub seed_params : Map Text → List (Text × Text) → Map Text
unfolding insert lower
seed_params p [] = p
seed_params p ((k, v) ∷ seed) = seed_params (insert (lower k) v p) seed

-- `newSessionParams`.
unfoldable pub new_session_params : List (Text × Text) → Map Text
unfolding seed_params
new_session_params seed = seed_params [] seed

-- `handleSet`.
unfoldable pub handle_set : Map Text → Text → Map Text × List Reply
unfolding match_set insert lower unquote_set_value
handle_set params stmt = elim (match_set stmt) [
  | none ↦ (params, error_response sqlstate_generic (codes "unsupported SET syntax: " ++ stmt) ∷ [])
  | some (name, value) ↦
      (insert (lower name) (unquote_set_value value) params, command_complete (codes "SET") ∷ [])
]

-- `params[name]`, "" where it is unset.
abbrev pub param_of : Text → Map Text → Text
param_of name params = elim (lookup name params) [ none ↦ [] | some v ↦ v ]

-- `handleShow`.
unfoldable pub handle_show : Map Text → Text → List Reply
unfolding match_show eq_text lower
handle_show params stmt = elim (match_show stmt) [
  | none ↦ error_response sqlstate_generic (codes "unsupported SHOW syntax: " ++ stmt) ∷ []
  | some shown ↦
      let name = lower shown in
      if eq_text name (codes "all")
      then error_response sqlstate_generic (codes "SHOW ALL is not supported") ∷ []
      else row_description (record { name = name; oid = oid_text; binary = false } ∷ [])
        ∷ data_row (some (param_of name params) ∷ [])
        ∷ command_complete (codes "SHOW")
        ∷ []
]

-- `handleSessionCommand`; `none` where it is not handled here.
unfoldable pub handle_session_command : Map Text → Text → Text → Option (Map Text × List Reply)
unfolding handle_set handle_show eq_text
handle_session_command params kw stmt =
    if eq_text kw (codes "SET")
    then some (handle_set params stmt)
    else if eq_text kw (codes "SHOW")
    then some (params, handle_show params stmt)
    else none
