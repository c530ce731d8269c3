-- ===== src/Pg/Extended/Rows.antt =====
-- cmd/execdb/pgextended.go and cmd/execdb/pgwire.go: the columns of a result, and its rows.
use execdb.Prelude.{
  ℕ, ◌+◌, Bool, true, false, ◌&&◌, Option, none, some, ◌==◌, List, [], ◌∷◌, ◌++◌, map, Text, codes,
  Bytes, length, ◌⊎◌, inl, inr,
}
use execdb.Pg.Types.{Value, Column, ColumnType, column_oid, is_binary_capable}
use execdb.Pg.Wire.{
  Reply, error_response, data_row, command_complete, row_description, sqlstate_generic,
}
use execdb.Pg.Messages.{format_code_for}
use execdb.Pg.Values.{Formats, pg_encode_value, decimal}
use execdb.Pg.Conn.{Rows}

-- A column, in the format that the client asked for where the server has it.
abbrev pub column : Text → ℕ → ℕ → Column
column name oid code = record {
  name = name;
  oid = oid;
  binary = code == 1 && is_binary_capable oid;
}

-- `buildResultColumns`, from the `i`th column on; `none` where a format code is out of range.
unfoldable pub build_result_columns : List ℕ → ℕ → List ColumnType → Option (List Column)
unfolding format_code_for column_oid is_binary_capable
build_result_columns formats i [] = some []
build_result_columns formats i (ct ∷ cts) = elim (format_code_for formats i) [
  | none ↦ none
  | some code ↦ elim (build_result_columns formats (i + 1) cts) [
    | none ↦ none
    | some cols ↦ some (column ct.name (column_oid ct) code ∷ cols)
  ]
]

-- `buildResultColumnsFromOIDs`.
unfoldable pub build_result_columns_from_oids : List ℕ → ℕ → List ℕ → Option (List Column)
unfolding format_code_for is_binary_capable
build_result_columns_from_oids formats i [] = some []
build_result_columns_from_oids formats i (oid ∷ oids) = elim (format_code_for formats i) [
  | none ↦ none
  | some code ↦ elim (build_result_columns_from_oids formats (i + 1) oids) [
    | none ↦ none
    | some cols ↦ some (column [] oid code ∷ cols)
  ]
]

abbrev pub oids_of : List Column → List ℕ
oids_of = map (λ c. c.oid)

-- The fields of one row.
unfoldable pub encode_row : Formats → List Column → List Value → List (Option Bytes)
unfolding pg_encode_value
encode_row fmt (c ∷ cols) (v ∷ vs) = pg_encode_value fmt c.oid c.binary v ∷ encode_row fmt cols vs
encode_row fmt _ _ = []

-- The loop of `sendDataRows` over what is left of the rows, `n` of which are sent.
unfoldable pub send_rows_from :
    Formats → List Column → ℕ → List (ℕ → Text ⊎ List Value) → Option Text → Bool × List Reply
unfolding encode_row decimal
send_rows_from fmt cols n [] (some message) = (false, error_response sqlstate_generic message ∷ [])
send_rows_from fmt cols n [] none = (true, command_complete (codes "SELECT " ++ decimal n) ∷ [])
send_rows_from fmt cols n (scan ∷ scans) failed =
    let (ok, replies) = send_rows_from fmt cols (n + 1) scans failed in
    elim (scan (length cols)) [
      | inl message ↦ (false, error_response sqlstate_generic message ∷ [])
      | inr vals ↦ (ok, data_row (encode_row fmt cols vals) ∷ replies)
    ]

-- `sendDataRows`.
unfoldable pub send_data_rows : Formats → List Column → Rows → Bool × List Reply
unfolding send_rows_from
send_data_rows fmt cols rows = send_rows_from fmt cols 0 rows.scans rows.failed

-- `sendRows`: every column in text.
unfoldable pub send_rows : Formats → Rows → Bool × List Reply
unfolding send_data_rows column_oid
send_rows fmt rows = elim rows.types [
  | inl message ↦ (false, error_response sqlstate_generic message ∷ [])
  | inr cts ↦
      let cols : List Column =
        map (λ ct. record { name = ct.name; oid = column_oid ct; binary = false }) cts in
      let (ok, replies) = send_data_rows fmt cols rows in (ok, row_description cols ∷ replies)
]
