-- ===== src/Repl/Complete.antt =====
-- cmd/execdb/complete.go: the statements that are whole, by `sqlite3_complete`, which is a parameter.
pub mod Laws
use execdb.Prelude.{Bool, true, false, if◌then◌else◌, List, [], ◌∷◌, is_empty, ◌++◌, Text}
use execdb.Sql.Scan.{scan_statements}

-- A piece behind those that wait.
abbrev pub grow : Text → Text → Text
grow acc piece = if is_empty acc then piece else acc ++ (b';' ∷ piece)

-- What is returned with the text behind the last piece.
abbrev pub rest_of : Text → Text → Text
rest_of [] tail = tail
rest_of (c ∷ acc) [] = c ∷ acc
rest_of (c ∷ acc) (t ∷ tail) = c ∷ (acc ++ (b';' ∷ t ∷ tail))

-- `Complete`, where an error counts as false.
module _ (is_complete : Text → Bool) where
  -- One round of the loop, on `complete` and `acc`.
  unfoldable pub take_piece : List Text × Text → Text → List Text × Text
  take_piece (complete, acc) piece =
      if is_complete (grow acc piece ++ (b';' ∷ []))
      then (complete ++ (grow acc piece ∷ []), [])
      else (complete, grow acc piece)

  unfoldable pub take_pieces : List Text × Text → List Text → List Text × Text
  unfolding take_piece
  take_pieces s [] = s
  take_pieces s (piece ∷ pieces) = take_pieces (take_piece s piece) pieces

  -- `completeStatements`.
  unfoldable pub complete_statements : Text → List Text × Text
  unfolding take_pieces scan_statements
  complete_statements sql_text =
      let (pieces, tail) = scan_statements sql_text in
      let (complete, acc) = take_pieces ([], []) pieces in (complete, rest_of acc tail)
