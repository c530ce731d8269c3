-- ===== src/Repl/Output.antt =====
-- cmd/execdb/format.go: how the rows of a query are printed. A text is its runes.
pub mod Columns
pub mod Json
use execdb.Prelude.{
  ℕ, Bool, true, false, Option, none, some, if◌then◌else◌, List, [], ◌∷◌, ◌++◌, map, Text, codes,
  Bytes, ◌⊎◌, inl, inr, length,
}
use execdb.Pg.Types.{Value, null, int64, float64, boolean, blob, string, time}
use execdb.Pg.Values.{format_int, hex}

-- `outputMode`.
pub data OutputMode : Type 0 where
  mode_list mode_column mode_csv mode_json mode_line : OutputMode

-- What is written to the two streams.
pub record Printed : Type 0 where
  pub out : Text
  pub err : Text

abbrev pub silent : Printed
silent = record { out = []; err = [] }

abbrev pub print : Text → Printed
print t = record { out = t; err = [] }

-- `fmt.Println`.
abbrev pub println : Text → Printed
println t = print (t ++ (b'\n' ∷ []))

-- `fmt.Fprintln(os.Stderr, "Error:", err)`.
abbrev pub print_error : Text → Printed
print_error message = record { out = []; err = codes "Error: " ++ (message ++ (b'\n' ∷ [])) }

-- One output behind another.
abbrev pub also : Printed → Printed → Printed
also a b = record { out = a.out ++ b.out; err = a.err ++ b.err }

abbrev pub print_failed : Option Text → Printed
print_failed none = silent
print_failed (some message) = print_error message

-- What the program has of `fmt`, of `encoding/json` and of `encoding/csv`. `marshal_float` is
-- `none` where `json.Marshal` returns an error, and `csv_record` is a message where `Write` does.
pub record Printers : Type 0 where
  pub sprint_float : ℕ → Text
  pub sprint_time : ℕ → Text
  pub runes : Bytes → Text
  pub marshal_string : Text → Text
  pub marshal_float : ℕ → Option Text
  pub csv_record : List Text → Text ⊎ Text

-- `*sql.Rows` of a query of the shell: `Columns`, `Scan` with so many variables in each row that
-- `Next` reaches, and `Err`.
pub record Rows : Type 0 where
  pub columns : Text ⊎ List Text
  pub scans : List (ℕ → Text ⊎ List Value)
  pub failed : Option Text

-- `strings.Join`.
unfoldable pub join : Text → List Text → Text
join sep [] = []
join sep (t ∷ []) = t
join sep (t ∷ u ∷ ts) = t ++ (sep ++ join sep (u ∷ ts))

-- `fmt.Sprint` of a value that is no `[]byte` and not nil.
unfoldable pub sprint : Printers → Value → Text
unfolding format_int
sprint p null = []
sprint p (int64 x) = format_int x
sprint p (float64 x) = p.sprint_float x
sprint p (boolean b) = if b then codes "true" else codes "false"
sprint p (blob bs) = p.runes bs
sprint p (string s) = s
sprint p (time t) = p.sprint_time t

-- `formatValue`.
unfoldable pub format_value : Printers → Value → Text
unfolding sprint
format_value p null = []
format_value p (blob bs) = p.runes bs
format_value p v = sprint p v

-- `for rows.Next() { ... }` and the test of `rows.Err()` behind it. A message ends the loop.
unfoldable pub each_row :
    (List Value → Text ⊎ Text) → ℕ → List (ℕ → Text ⊎ List Value) → Option Text → Printed
each_row body n [] failed = print_failed failed
each_row body n (scan ∷ scans) failed =
    let rest = each_row body n scans failed in
    elim (scan n) [
      | inl message ↦ print_error message
      | inr vals ↦ elim (body vals) [
        | inl message ↦ print_error message
        | inr t ↦ also (print t) rest
      ]
    ]

-- `printRowsList`.
unfoldable pub print_rows_list : Printers → Rows → List Text → Bool → Printed
unfolding join format_value each_row
print_rows_list p rows cols headers =
    also (if headers then println (join (codes "|") cols) else silent) (
      each_row (λ vals. inr (join (codes "|") (map (format_value p) vals) ++ (b'\n' ∷ [])))
        (length cols) rows.scans rows.failed)

-- `printRowsCSV`.
unfoldable pub print_rows_csv : Printers → Rows → List Text → Bool → Printed
unfolding format_value each_row
print_rows_csv p rows cols headers =
    let body : Printed =
      each_row (λ vals. p.csv_record (map (format_value p) vals)) (length cols) rows.scans
        rows.failed in
    if headers
    then elim (p.csv_record cols) [
      | inl message ↦ print_error message
      | inr t ↦ also (print t) body
    ]
    else body
