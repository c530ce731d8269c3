-- ===== src/Repl/Complete/Laws.antt =====
-- cmd/execdb/complete.go: `completeStatements` and the text that it is given.
use execdb.Prelude.{
  Bool, true, false, List, [], ◌∷◌, ◌++◌, All, Text, ◌≡◌, ◌⊎◌, inl, inr, refl, sym, ap, ◌∙◌,
  append_assoc, append-nil, Bool-cases,
}
use execdb.Sql.Scan.{scan_statements, joined, scan_statements-joined, joined-concat}
use execdb.Repl.Complete.{grow, rest_of, take_piece, take_pieces, complete_statements}

-- The text of the pieces that wait, each with its `;`.
abbrev pub waiting : Text → Text
waiting [] = []
waiting (c ∷ acc) = c ∷ (acc ++ (b';' ∷ []))

All-concat :
    (P : Text → Type 0) (ss : List Text) (t : Text) → All P ss → P t → All P (ss ++ (t ∷ []))
All-concat P [] t h p = (p, tt)
All-concat P (s ∷ ss) t h p = (h.0, All-concat P ss t h.1 p)

waiting-grow :
    (acc piece : Text) → grow acc piece ++ (b';' ∷ []) ≡ waiting acc ++ (piece ++ (b';' ∷ []))
waiting-grow [] piece = refl
waiting-grow (c ∷ acc) piece = simp append_assoc

module _ (is_complete : Text → Bool) (h : is_complete (b';' ∷ []) ≡ true) where
  waiting-open :
      (acc : Text) → is_complete (acc ++ (b';' ∷ [])) ≡ false → waiting acc ≡ acc ++ (b';' ∷ [])
  waiting-open [] e = cc
  waiting-open (c ∷ acc) e = refl

  abbrev spelt : List Text × Text → Text
  spelt s = joined s.0 ++ waiting s.1

  take_piece-spelt :
      (s : List Text × Text) (piece : Text)
      → spelt (take_piece is_complete s piece) ≡ spelt s ++ (piece ++ (b';' ∷ []))
  unfolding take_piece
  take_piece-spelt (complete, acc) piece =
      let whole = grow acc piece in
      let e : (joined complete ++ waiting acc) ++ (piece ++ (b';' ∷ []))
          ≡ joined complete ++ (whole ++ (b';' ∷ [])) =
        append_assoc (joined complete) (waiting acc) (piece ++ (b';' ∷ []))
        ∙ ap (◌++◌ (joined complete)) (sym (waiting-grow acc piece)) in
      elim (Bool-cases (is_complete (whole ++ (b';' ∷ [])))) [
        | inl q ↦ rw (q, take_piece) (append-nil _ ∙ joined-concat complete whole ∙ sym e)
        | inr q ↦ rw (q, take_piece) (ap (◌++◌ (joined complete)) (waiting-open whole q) ∙ sym e)
      ]

  take_pieces-spelt :
      (pieces : List Text) (s : List Text × Text)
      → spelt (take_pieces is_complete s pieces) ≡ spelt s ++ joined pieces
  unfolding take_pieces
  take_pieces-spelt [] s = sym (append-nil _)
  take_pieces-spelt (piece ∷ pieces) s =
      take_pieces-spelt pieces (take_piece is_complete s piece)
      ∙ rw (take_piece-spelt s piece) simp append_assoc

  rest_of-spelt :
      (acc tail : Text)
      → (rest_of acc tail ≡ waiting acc ++ tail)
        ⊎ (rest_of acc tail ++ (b';' ∷ []) ≡ waiting acc ++ tail)
  rest_of-spelt [] tail = inl refl
  rest_of-spelt (c ∷ acc) [] = inr simp append-nil
  rest_of-spelt (c ∷ acc) (t ∷ tail) = inl simp append_assoc

  -- Nothing that was typed is lost.
  pub complete_statements-joined :
      (sql_text : Text)
      → (joined (complete_statements is_complete sql_text).0
            ++ (complete_statements is_complete sql_text).1
          ≡ sql_text)
        ⊎ (joined (complete_statements is_complete sql_text).0
              ++ ((complete_statements is_complete sql_text).1 ++ (b';' ∷ []))
            ≡ sql_text)
  unfolding complete_statements
  complete_statements-joined sql_text =
      let (pieces, tail) = scan_statements sql_text in
      let s = take_pieces is_complete ([], []) pieces in
      let e : joined s.0 ++ (waiting s.1 ++ tail) ≡ sql_text =
        sym (append_assoc _ (waiting s.1) tail)
        ∙ ap (λ t. t ++ tail) (take_pieces-spelt pieces ([], []))
        ∙ scan_statements-joined sql_text in
      elim (rest_of-spelt s.1 tail) [
        | inl q ↦ inl (ap (◌++◌ (joined s.0)) q ∙ e)
        | inr q ↦ inr (ap (◌++◌ (joined s.0)) q ∙ e)
      ]

-- The test that a statement passed.
abbrev pub Passed : (Text → Bool) → Text → Type 0
Passed is_complete s = is_complete (s ++ (b';' ∷ [])) ≡ true

take_pieces-Passed :
    (is_complete : Text → Bool) (pieces : List Text) (s : List Text × Text)
    → All (Passed is_complete) s.0
    → All (Passed is_complete) (take_pieces is_complete s pieces).0
unfolding take_pieces take_piece
take_pieces-Passed is_complete [] s h = h
take_pieces-Passed is_complete (piece ∷ pieces) (complete, acc) h =
    let whole = grow acc piece in
    elim (Bool-cases (is_complete (whole ++ (b';' ∷ [])))) [
      | inl q ↦
          take_pieces-Passed is_complete pieces (take_piece is_complete (complete, acc) piece)
            (rw (q, take_piece) (All-concat (Passed is_complete) complete whole h q))
      | inr q ↦
          take_pieces-Passed is_complete pieces (take_piece is_complete (complete, acc) piece)
            (rw (q, take_piece) h)
    ]

-- A statement that runs is one that `Complete` takes for whole.
pub complete_statements-Passed :
    (is_complete : Text → Bool) (sql_text : Text)
    → All (Passed is_complete) (complete_statements is_complete sql_text).0
unfolding complete_statements
complete_statements-Passed is_complete sql_text =
    take_pieces-Passed is_complete (scan_statements sql_text).0 ([], []) tt

module _ (is_complete : Text → Bool) (h : (t : Text) → is_complete t ≡ true) where
  take_pieces-all :
      (pieces complete : List Text)
      → take_pieces is_complete (complete, []) pieces ≡ (complete ++ pieces, [])
  unfolding take_pieces take_piece
  take_pieces-all [] complete = ap (λ c. (c, [])) (sym (append-nil complete))
  take_pieces-all (piece ∷ pieces) complete = rw (h (piece ++ (b';' ∷ []))) (
      take_pieces-all pieces (complete ++ (piece ∷ []))
      ∙ ap (λ c. (c, [])) (append_assoc complete (piece ∷ []) pieces))

  -- Where `Complete` takes every text for whole, `completeStatements` gives the statements and the
  -- remainder of `scanStatements`.
  pub complete_statements-scan_statements :
      (sql_text : Text) → complete_statements is_complete sql_text ≡ scan_statements sql_text
  unfolding complete_statements
  complete_statements-scan_statements sql_text =
      rw (take_pieces-all (scan_statements sql_text).0 []) refl
