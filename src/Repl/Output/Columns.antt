-- ===== src/Repl/Output/Columns.antt =====
-- cmd/execdb/format.go: the modes in which columns stand below each other, `line` and `column`.
pub mod Laws
use execdb.Prelude.{
  ℕ, zero, suc, ◌+◌, ◌-◌, Bool, true, false, Option, none, some, ltb, if◌then◌else◌, List, [], ◌∷◌,
  ◌++◌, map, Text, codes, ◌⊎◌, inl, inr, length, replicate,
}
use execdb.Pg.Types.{Value}
use execdb.Repl.Output.{
  Printed, Printers, Rows, silent, print, println, print_error, also, join, format_value, each_row,
}

-- `utf8.RuneLen` of a rune.
abbrev pub rune_len : ℕ → ℕ
rune_len c = if ltb c 128 then 1 else if ltb c 2048 then 2 else if ltb c 65536 then 3 else 4

-- `len` of a string.
unfoldable pub len : Text → ℕ
len [] = 0
len (c ∷ s) = rune_len c + len s

-- `%-*s` and `%*s`, which count runes.
abbrev pub pad_right : ℕ → Text → Text
pad_right w s = s ++ replicate (w - length s) b' '

abbrev pub pad_left : ℕ → Text → Text
pad_left w s = replicate (w - length s) b' ' ++ s

-- The first loop of `printRowsLine`.
unfoldable pub max_len : ℕ → List Text → ℕ
unfolding len
max_len n [] = n
max_len n (c ∷ cols) = max_len (if ltb n (len c) then len c else n) cols

unfoldable pub line_fields : Printers → ℕ → List Text → List Value → Text
unfolding format_value
line_fields p w (c ∷ cols) (v ∷ vals) =
    pad_left w c ++ (codes " = " ++ (format_value p v ++ (b'\n' ∷ line_fields p w cols vals)))
line_fields p w _ _ = []

-- `printRowsLine`.
unfoldable pub print_rows_line : Printers → Rows → List Text → Printed
unfolding max_len line_fields each_row
print_rows_line p rows cols =
    each_row (λ vals. inr (line_fields p (max_len 0 cols) cols vals ++ (b'\n' ∷ []))) (length cols)
      rows.scans rows.failed

-- `bufferRows`.
unfoldable pub buffer_rows :
    ℕ → List (ℕ → Text ⊎ List Value) → Option Text → Text ⊎ List (List Value)
buffer_rows n [] none = inr []
buffer_rows n [] (some message) = inl message
buffer_rows n (scan ∷ scans) failed =
    let rest = buffer_rows n scans failed in
    elim (scan n) [
      | inl message ↦ inl message
      | inr vals ↦ elim rest [ inl message ↦ inl message | inr out ↦ inr (vals ∷ out) ]
    ]

-- The widths, behind one row.
unfoldable pub widen : List ℕ → List Text → List ℕ
unfolding len
widen (w ∷ widths) (s ∷ row) = (if ltb w (len s) then len s else w) ∷ widen widths row
widen widths _ = widths

unfoldable pub widen_all : List ℕ → List (List Text) → List ℕ
unfolding widen
widen_all widths [] = widths
widen_all widths (row ∷ rows) = widen_all (widen widths row) rows

-- `widths` of `printRowsColumn`.
unfoldable pub widths_of : List Text → List (List Text) → List ℕ
unfolding len widen_all
widths_of cols rendered = widen_all (map len cols) rendered

-- `parts` of `printColumnRow`.
unfoldable pub padded : List Text → List ℕ → List Text
padded (f ∷ []) _ = f ∷ []
padded (f ∷ g ∷ fields) (w ∷ widths) = pad_right w f ∷ padded (g ∷ fields) widths
padded _ _ = []

-- `printColumnRow`, without the end of the line.
unfoldable pub column_line : List Text → List ℕ → Text
unfolding join padded
column_line fields widths = join (codes "  ") (padded fields widths)

unfoldable pub column_lines : List (List Text) → List ℕ → Printed
unfolding column_line
column_lines [] widths = silent
column_lines (row ∷ rows) widths =
    also (println (column_line row widths)) (column_lines rows widths)

-- `printRowsColumn`.
unfoldable pub print_rows_column : Printers → Rows → List Text → Bool → Printed
unfolding format_value buffer_rows widths_of column_lines
print_rows_column p rows cols headers = elim (buffer_rows (length cols) rows.scans rows.failed) [
  | inl message ↦ print_error message
  | inr buffered ↦
      let rendered = map (map (format_value p)) buffered in
      let widths = widths_of cols rendered in
      also
        (if headers
          then column_lines (cols ∷ map (λ w. replicate w b'-') widths ∷ []) widths
          else silent)
        (column_lines rendered widths)
]
