-- ===== src/Repl/Output/Json/Laws.antt =====
-- cmd/execdb/format.go: the array that `printRowsJSON` prints.
use execdb.Prelude.{
  ℕ, true, false, none, List, [], ◌∷◌, ◌++◌, map, Text, codes, ◌≡◌, refl, sym, ap, ◌⊎◌, inr, length,
  append_assoc, append-nil,
}
use execdb.Pg.Types.{Value}
use execdb.Repl.Output.{Printers, join}
use execdb.Repl.Output.Json.{json_scalar, json_members, json_rows, print_rows_json}

-- One member of an object for each column.
abbrev pub members : Printers → List Text → List Value → List Text
members p (k ∷ keys) (v ∷ vals) = (k ++ (codes ":" ++ json_scalar p v)) ∷ members p keys vals
members p _ _ = []

abbrev pub object : Printers → List Text → List Value → Text
object p keys vals = codes "{" ++ (join (codes ",") (members p keys vals) ++ codes "}")

abbrev pub array : Printers → List Text → List (List Value) → Text
array p keys rows = codes "[" ++ (join (codes ",") (map (object p keys) rows) ++ codes "]\n")

-- `,` in front of every text.
abbrev commas : List Text → Text
commas [] = []
commas (t ∷ ts) = codes "," ++ (t ++ commas ts)

join-commas : (t : Text) (ts : List Text) → join (codes ",") (t ∷ ts) ≡ t ++ commas ts
unfolding join
join-commas t [] = sym (append-nil t)
join-commas t (u ∷ ts) = ap (λ s. t ++ (codes "," ++ s)) (join-commas u ts)

json_members-commas :
    (p : Printers) (keys : List Text) (vals : List Value)
    → json_members p false keys vals ≡ commas (members p keys vals)
unfolding json_members
json_members-commas p [] vals = refl
json_members-commas p (k ∷ keys) [] = refl
json_members-commas p (k ∷ keys) (v ∷ vals) = simp (json_members-commas p keys vals, append_assoc)

json_members-join :
    (p : Printers) (keys : List Text) (vals : List Value)
    → json_members p true keys vals ≡ join (codes ",") (members p keys vals)
unfolding json_members join
json_members-join p [] vals = refl
json_members-join p (k ∷ keys) [] = refl
json_members-join p (k ∷ keys) (v ∷ vals) =
    rw (json_members-commas p keys vals) rw
      (join-commas (k ++ (codes ":" ++ json_scalar p v)) (members p keys vals)) simp append_assoc

-- What `Scan` gives for a row, whatever it is asked for.
abbrev pub scanned : List Value → ℕ → Text ⊎ List Value
scanned vals n = inr vals

json_rows-commas :
    (p : Printers) (n : ℕ) (keys : List Text) (rows : List (List Value))
    → (json_rows p false n keys (map scanned rows) none).out
      ≡ commas (map (object p keys) rows) ++ codes "]\n"
unfolding json_rows
json_rows-commas p n keys [] = refl
json_rows-commas p n keys (vals ∷ rows) =
    simp (json_rows-commas p n keys rows, json_members-join p keys vals, append_assoc)

json_rows-join :
    (p : Printers) (n : ℕ) (keys : List Text) (rows : List (List Value))
    → (json_rows p true n keys (map scanned rows) none).out
      ≡ join (codes ",") (map (object p keys) rows) ++ codes "]\n"
unfolding json_rows join
json_rows-join p n keys [] = refl
json_rows-join p n keys (vals ∷ rows) =
    rw (join-commas (object p keys vals) (map (object p keys) rows)) simp
      (json_rows-commas p n keys rows, json_members-join p keys vals, append_assoc)

-- For rows that are scanned without an error, the loops of `printRowsJSON` print the array of one
-- object for each row, with one member for each column that the row has a value for, and a comma
-- exactly between two of them.
pub print_rows_json-array :
    (p : Printers) (cols : List Text) (rows : List (List Value))
    → (print_rows_json p
        record { columns = inr cols; scans = map scanned rows; failed = none }
        cols).out
      ≡ array p (map p.marshal_string cols) rows
unfolding print_rows_json
print_rows_json-array p cols rows =
    ap (λ s. codes "[" ++ s) (json_rows-join p (length cols) (map p.marshal_string cols) rows)
