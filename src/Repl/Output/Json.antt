-- ===== src/Repl/Output/Json.antt =====
-- cmd/execdb/format.go: `printRowsJSON`.
pub mod Laws
use execdb.Prelude.{
  ℕ, Bool, true, false, Option, none, some, if◌then◌else◌, List, [], ◌∷◌, ◌++◌, map, Text, codes,
  ◌⊎◌, inl, inr, length,
}
use execdb.Pg.Types.{Value, null, int64, float64, boolean, blob, string, time}
use execdb.Pg.Values.{format_int, hex}
use execdb.Repl.Output.{Printed, Printers, Rows, print, println, print_error, also, sprint}

abbrev or_empty : Option Text → Text
or_empty none = []
or_empty (some t) = t

-- `jsonScalar`: an error of `json.Marshal` is dropped, and its result is empty then.
unfoldable pub json_scalar : Printers → Value → Text
unfolding format_int hex sprint
json_scalar p null = codes "null"
json_scalar p (blob bs) = p.marshal_string (hex bs)
json_scalar p (int64 x) = format_int x
json_scalar p (float64 x) = or_empty (p.marshal_float x)
json_scalar p v = p.marshal_string (sprint p v)

-- The loop over the values of one row, the first of which has no comma.
unfoldable pub json_members : Printers → Bool → List Text → List Value → Text
unfolding json_scalar
json_members p first (k ∷ keys) (v ∷ vals) =
    (if first then [] else codes ",")
    ++ (k ++ (codes ":" ++ (json_scalar p v ++ json_members p false keys vals)))
json_members p first _ _ = []

-- The loop over the rows, with its variable `first`.
unfoldable pub json_rows :
    Printers → Bool → ℕ → List Text → List (ℕ → Text ⊎ List Value) → Option Text → Printed
unfolding json_members
json_rows p first n keys [] none = println (codes "]")
json_rows p first n keys [] (some message) = print_error message
json_rows p first n keys (scan ∷ scans) failed =
    let rest = json_rows p false n keys scans failed in
    elim (scan n) [
      | inl message ↦ print_error message
      | inr vals ↦
          also
            (print (
              (if first then [] else codes ",")
              ++ (codes "{" ++ (json_members p true keys vals ++ codes "}"))))
            rest
    ]

unfoldable pub print_rows_json : Printers → Rows → List Text → Printed
unfolding json_rows
print_rows_json p rows cols =
    also (print (codes "["))
      (json_rows p true (length cols) (map p.marshal_string cols) rows.scans rows.failed)
