-- ===== src/Pg/Messages.antt =====
-- cmd/execdb/pgextended.go: the bodies of Parse and Bind, and the parameters of a query.
pub mod Laws
use execdb.Prelude.{
  ℕ, zero, suc, ◌+◌, ◌-◌, ◌*◌, ◌^◌, Bool, true, false, not, ◌&&◌, ◌||◌, Option, none, some, ◌==◌,
  ltb, if◌then◌else◌, List, [], ◌∷◌, ◌++◌, head?, get_elem?, Text, within, Bytes, get_be,
  get_be_from, is_negative,
}
use execdb.Sql.Lexer.{Mode, top, next, is_top}
use execdb.Pg.Wire.{read_full, read_cstring}

-- The big-endian integer of `w` bytes in front.
unfoldable pub read_int : ℕ → Bytes → Option (ℕ × Bytes)
unfolding read_full get_be_from
read_int w bs = elim (read_full w bs) [ none ↦ none | some (b, rest) ↦ some (get_be b, rest) ]

-- A loop over `n` integers of `w` bytes.
unfoldable pub read_ints : ℕ → ℕ → Bytes → Option (List ℕ × Bytes)
unfolding read_int
read_ints w zero bs = some ([], bs)
read_ints w (suc n) bs = elim (read_int w bs) [
  | none ↦ none
  | some (v, rest) ↦ elim (read_ints w n rest) [
    | none ↦ none
    | some (vs, after) ↦ some (v ∷ vs, after)
  ]
]

-- `readInt16Count`, and as many integers as it says.
unfoldable pub read_counted : ℕ → Bytes → Option (List ℕ × Bytes)
unfolding read_int read_ints
read_counted w bs = elim (read_int 2 bs) [ none ↦ none | some (n, rest) ↦ read_ints w n rest ]

-- `parseParseMessage`: the name, the query and the types of the parameters.
unfoldable pub parse_parse_message : Bytes → Option (Text × Text × List ℕ)
unfolding read_cstring read_counted
parse_parse_message body = elim (read_cstring body) [
  | none ↦ none
  | some (stmt_name, body₁) ↦ elim (read_cstring body₁) [
    | none ↦ none
    | some (query, body₂) ↦ elim (read_counted 4 body₂) [
      | none ↦ none
      | some (param_oids, _) ↦ some (stmt_name, query, param_oids)
    ]
  ]
]

-- The value of one parameter behind its length, which is negative for NULL.
unfoldable pub read_sized_value : ℕ → Bytes → Option (Option Bytes × Bytes)
unfolding read_full
read_sized_value plen bs =
    if is_negative 32 plen
    then some (none, bs)
    else elim (read_full plen bs) [ none ↦ none | some (v, rest) ↦ some (some v, rest) ]

unfoldable pub read_value : Bytes → Option (Option Bytes × Bytes)
unfolding read_int read_sized_value
read_value bs = elim (read_int 4 bs) [
  | none ↦ none
  | some (plen, rest) ↦ read_sized_value plen rest
]

unfoldable pub read_values : ℕ → Bytes → Option (List (Option Bytes) × Bytes)
unfolding read_value
read_values zero bs = some ([], bs)
read_values (suc n) bs = elim (read_value bs) [
  | none ↦ none
  | some (v, rest) ↦ elim (read_values n rest) [
    | none ↦ none
    | some (vs, after) ↦ some (v ∷ vs, after)
  ]
]

-- What a Bind message says.
pub record Bind : Type 0 where
  pub portal_name : Text
  pub stmt_name : Text
  pub param_formats : List ℕ
  pub param_values : List (Option Bytes)
  pub result_formats : List ℕ

-- Behind the two names.
unfoldable pub parse_bind_rest : Text → Text → Bytes → Option Bind
unfolding read_counted read_values
parse_bind_rest portal_name stmt_name bs = elim (read_counted 2 bs) [
  | none ↦ none
  | some (param_formats, bs₁) ↦ elim (read_int 2 bs₁) [
    | none ↦ none
    | some (n, bs₂) ↦ elim (read_values n bs₂) [
      | none ↦ none
      | some (param_values, bs₃) ↦ elim (read_counted 2 bs₃) [
        | none ↦ none
        | some (result_formats, _) ↦ some (record {
          portal_name = portal_name;
          stmt_name = stmt_name;
          param_formats = param_formats;
          param_values = param_values;
          result_formats = result_formats;
        })
      ]
    ]
  ]
]

-- `parseBindMessage`.
unfoldable pub parse_bind_message : Bytes → Option Bind
unfolding read_cstring parse_bind_rest
parse_bind_message body = elim (read_cstring body) [
  | none ↦ none
  | some (portal_name, body₁) ↦ elim (read_cstring body₁) [
    | none ↦ none
    | some (stmt_name, body₂) ↦ parse_bind_rest portal_name stmt_name body₂
  ]
]

-- `formatCodeFor`; `none` where `formats[idx]` is out of range, which stops the process.
unfoldable pub format_code_for : List ℕ → ℕ → Option ℕ
format_code_for [] idx = some 0
format_code_for (code ∷ []) idx = some code
format_code_for (code ∷ next ∷ codes) idx = get_elem? (code ∷ next ∷ codes) idx

-- A number that `strconv.Atoi` takes, where it is higher than the highest.
abbrev pub higher : Option ℕ → ℕ → ℕ
higher none max_idx = max_idx
higher (some v) max_idx = if ltb max_idx v && ltb v (2 ^ 63) then v else max_idx

abbrev pub is_digit : ℕ → Bool
is_digit c = within b'0' b'9' c

abbrev pub is_digit? : Option ℕ → Bool
is_digit? none = false
is_digit? (some c) = is_digit c

-- Whether a number is being read, and the rune is one more digit of it.
abbrev pub continues : Option ℕ → ℕ → Bool
continues none c = false
continues (some v) c = is_digit c

abbrev pub extend : Option ℕ → ℕ → Option ℕ
extend none c = none
extend (some v) c = some (v * 10 + (c - b'0'))

-- The number behind a "$" that a digit follows begins as 0.
abbrev pub begins : Mode → ℕ → Option ℕ → Option ℕ
begins m c ahead = if is_top m && c == b'$' && is_digit? ahead then some 0 else none

abbrev pub mode_behind : Mode → Option ℕ → ℕ → Option ℕ → Mode
mode_behind m num c ahead = if continues num c then top else next m c ahead

abbrev pub number_behind : Mode → Option ℕ → ℕ → Option ℕ → Option ℕ
number_behind m num c ahead = if continues num c then extend num c else begins m c ahead

abbrev pub highest_behind : Option ℕ → ℕ → ℕ → ℕ
highest_behind num max_idx c = if continues num c then max_idx else higher num max_idx

unfoldable pub count_from : Mode → Option ℕ → ℕ → Text → ℕ
unfolding next
count_from m num max_idx [] = higher num max_idx
count_from m num max_idx (c ∷ cs) =
    count_from (mode_behind m num c (head? cs)) (number_behind m num c (head? cs))
      (highest_behind num max_idx c) cs

-- `countPlaceholders`.
unfoldable pub count_placeholders : Text → ℕ
unfolding count_from
count_placeholders query = count_from top none 0 query
