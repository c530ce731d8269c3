-- ===== src/Repl/Import/Laws.antt =====
-- cmd/execdb/import.go: what a failed `.import` leaves behind, and what a complete one has read.
use mathlib.Core.Path.{subst}
use execdb.Prelude.{
  ℕ, ◌+◌, Option, none, some, List, [], ◌∷◌, map, All, Text, length, ◌≡◌, ◌⊎◌, inl, inr, refl, sym,
  ap, ◌∙◌, arith, Option-cases, Bool-cases, ◌==◌,
}
use execdb.Sql.Quote.{insert_sql}
use execdb.Repl.System.{System}
use execdb.Repl.Import.{
  savepoint, rollback, release, insert_records, insert_import_rows, leave_savepoint, import_rows,
}

-- What SQLite says of savepoints: one keeps what it found until it is rolled back, and statements
-- in it leave that alone, except that an INSERT which fails may undo the whole transaction, as ON
-- CONFLICT ROLLBACK, RAISE(ROLLBACK) and a full disk do. `began` is what that leads back to: the
-- contents at the start of the transaction, or the contents where there is none.
pub record Savepoints {W : Type 0} (sys : System W) (C : Type 0) (content : W → C)
    (saved : W → Option C) (began : W → C) : Type 0 where
  pub opens :
      (w : W)
      → (sys.exec w savepoint).1 ≡ none
      → (saved (sys.exec w savepoint).0 ≡ some (content w))
        × (began (sys.exec w savepoint).0 ≡ began w)
  pub refuses :
      (w : W) (message : Text)
      → (sys.exec w savepoint).1 ≡ some message
      → content (sys.exec w savepoint).0 ≡ content w
  pub prepares :
      (w : W) (text : Text)
      → (saved (sys.prepare w text).0 ≡ saved w) × (began (sys.prepare w text).0 ≡ began w)
  pub inserts :
      (w : W) (fields : List Text) (c : C)
      → saved w ≡ some c
      → ((saved (sys.exec_prepared w fields).0 ≡ some c)
          × (began (sys.exec_prepared w fields).0 ≡ began w))
        ⊎ (((message : Text) × ((sys.exec_prepared w fields).1 ≡ some message))
            × (saved (sys.exec_prepared w fields).0 ≡ none)
            × (content (sys.exec_prepared w fields).0 ≡ began w))
  pub rolls_back : (w : W) (c : C) → saved w ≡ some c → content (sys.exec w rollback).0 ≡ c
  pub refuses_rollback : (w : W) → saved w ≡ none → content (sys.exec w rollback).0 ≡ content w
  pub releases : (w : W) → content (sys.exec w release).0 ≡ content w

module _ {W : Type 0} (sys : System W) (C : Type 0) (content : W → C) (saved : W → Option C)
    (began : W → C) (laws : Savepoints sys C content saved began) where
  -- What the rows leave: the savepoint with what it kept, or an error that undid the transaction.
  abbrev Leaves : C → C → W × (Text ⊎ ℕ) → Type 0
  Leaves c start r =
      (saved r.0 ≡ some c)
      ⊎ (((message : Text) × (r.1 ≡ inl message)) × (saved r.0 ≡ none) × (content r.0 ≡ start))

  insert_records-Leaves :
      (cols n line : ℕ) (reads : List (Text ⊎ List Text)) (w : W) (c : C)
      → saved w ≡ some c
      → Leaves c (began w) (insert_records sys cols n line reads w)
  unfolding insert_records
  insert_records-Leaves cols n line [] w c h = inl h
  insert_records-Leaves cols n line (inl message ∷ reads) w c h = inl h
  insert_records-Leaves cols n line (inr fields ∷ reads) w c h =
      elim (Bool-cases (length fields == cols)) [
        | inr p ↦ rw (p, insert_records) (inl h)
        | inl p ↦ elim (laws.inserts w fields c h) [
          | inr ((message, failed), gone, undone) ↦
              rw (p, failed, insert_records) (inr ((_, refl), gone, undone))
          | inl (kept, same) ↦ elim (Option-cases (sys.exec_prepared w fields).1) [
            | inr (message, failed) ↦ rw (p, failed, insert_records) (inl kept)
            | inl fine ↦
                rw (p, fine, insert_records)
                  (subst
                    (λ start. Leaves c start (
                      insert_records sys cols (n + 1) (line + 1) reads
                        (sys.exec_prepared w fields).0))
                    same
                    (insert_records-Leaves cols (n + 1) (line + 1) reads
                      (sys.exec_prepared w fields).0 c kept))
          ]
        ]
      ]

  insert_import_rows-Leaves :
      (reads : List (Text ⊎ List Text)) (table : Text) (cols : List Text) (header_lines : ℕ) (w : W)
      (c : C)
      → saved w ≡ some c
      → Leaves c (began w) (insert_import_rows sys reads table cols header_lines w)
  unfolding insert_import_rows
  insert_import_rows-Leaves reads table cols header_lines w c h =
      let (kept, same) = laws.prepares w (insert_sql table cols) in
      let v = (sys.prepare w (insert_sql table cols)).0 in
      elim (Option-cases (sys.prepare w (insert_sql table cols)).1) [
        | inr (message, failed) ↦ rw (failed, insert_import_rows) (inl (kept ∙ h))
        | inl fine ↦
            rw (fine, insert_import_rows)
              (subst
                (λ start. Leaves c start (insert_records sys (length cols) 0 header_lines reads v))
                same (insert_records-Leaves (length cols) 0 header_lines reads v c (kept ∙ h)))
      ]

  -- A release that failed behind the last row.
  abbrev pub Unreleased : W → W → Type 0
  Unreleased w v =
      (u : W) × (message : Text) × (saved u ≡ some (content w))
      × ((sys.exec u release).1 ≡ some message)
      × (v ≡ (sys.exec u release).0)

  -- How a failed import ends, from the state that the savepoint was opened in.
  abbrev pub EndsImport : W → W → Type 0
  EndsImport w v = (content v ≡ content w) ⊎ (content v ≡ began w) ⊎ Unreleased w v

  leave_savepoint-inl :
      (w : W) (r : W × (Text ⊎ ℕ)) (message : Text)
      → Leaves (content w) (began w) r
      → (leave_savepoint sys r).1 ≡ inl message
      → EndsImport w (leave_savepoint sys r).0
  unfolding leave_savepoint
  leave_savepoint-inl w (v, inl m) message (inl s) e =
      inl (laws.releases (sys.exec v rollback).0 ∙ laws.rolls_back v (content w) s)
  leave_savepoint-inl w (v, inl m) message (inr (failed, gone, undone)) e =
      inr (inl (laws.releases (sys.exec v rollback).0 ∙ laws.refuses_rollback v gone ∙ undone))
  leave_savepoint-inl w (v, inr n) message (inr ((m, failed), gone, undone)) e =
      absurd (ground (arith, failed))
  leave_savepoint-inl w (v, inr n) message (inl s) e = elim (Option-cases (sys.exec v release).1) [
    | inl q ↦ ground arith
    | inr (m, q) ↦ inr (inr (v, m, s, q, ground arith))
  ]

  -- Where savepoints do what SQLite says of them: when `importRows` returns an error, the contents
  -- are what they were before; or an INSERT that failed undid the whole transaction, and they are
  -- those that this one began with; or else the last RELEASE failed, and then the savepoint had
  -- kept the contents from before up to that call.
  pub import_rows-inl :
      (reads : List (Text ⊎ List Text)) (table : Text) (cols : List Text) (header_lines : ℕ) (w : W)
      (message : Text)
      → (import_rows sys reads table cols header_lines w).1 ≡ inl message
      → EndsImport w (import_rows sys reads table cols header_lines w).0
  unfolding import_rows
  import_rows-inl reads table cols header_lines w message e =
      let v = (sys.exec w savepoint).0 in
      elim (Option-cases (sys.exec w savepoint).1) [
        | inl q ↦
            let r = insert_import_rows sys reads table cols header_lines v in
            let (kept, same) = laws.opens w q in
            let k = insert_import_rows-Leaves reads table cols header_lines v (content w) kept in
            let l = subst (λ start. Leaves (content w) start r) same k in
            let f : import_rows sys reads table cols header_lines w ≡ leave_savepoint sys r =
              ground arith in
            let g = leave_savepoint-inl w r message l (ap (λ x. x.1) (sym f) ∙ e) in rw f g
        | inr (m, q) ↦ inl (let k = laws.refuses w m q in ground arith)
      ]

-- The records that were read, each of which had a field for every column.
abbrev pub Complete : List Text → List (Text ⊎ List Text) → ℕ → Type 0
Complete cols reads n =
    (records : List (List Text)) × (reads ≡ map inr records)
    × All (λ fields. length fields ≡ length cols) records
    × (n ≡ length records)

insert_records-inr :
    {W : Type 0}
    → (sys : System W) (cols : List Text) (n line : ℕ) (reads : List (Text ⊎ List Text)) (w : W)
      (m : ℕ)
    → (insert_records sys (length cols) n line reads w).1 ≡ inr m
    → (k : ℕ) × (m ≡ n + k) × Complete cols reads k
unfolding insert_records
insert_records-inr sys cols n line [] w m e = (0, ground arith, ([], refl, tt, refl))
insert_records-inr sys cols n line (inl message ∷ reads) w m e = absurd (ground arith)
insert_records-inr sys cols n line (inr fields ∷ reads) w m e =
    let v = (sys.exec_prepared w fields).0 in
    let l : length fields ≡ length cols = ground arith in
    let f : (insert_records sys (length cols) (n + 1) (line + 1) reads v).1 ≡ inr m =
      ground arith in
    let (k, g, (records, r, h, j)) = insert_records-inr sys cols (n + 1) (line + 1) reads v m f in
    (k + 1, omega arith, (fields ∷ records, ap (◌∷◌ (inr fields)) r, (l, h), omega arith))

leave_savepoint-inr :
    {W : Type 0}
    → (sys : System W) (r : W × (Text ⊎ ℕ)) (n : ℕ) → (leave_savepoint sys r).1 ≡ inr n
    → r.1 ≡ inr n
unfolding leave_savepoint
leave_savepoint-inr sys (w, inl message) n e = absurd (ground arith)
leave_savepoint-inr sys (w, inr k) n e = ground arith

-- When `importRows` returns a number of rows, the whole file was read, each of its records had as
-- many fields as the table has columns, and the number is that of the records.
pub import_rows-Complete :
    {W : Type 0}
    → (sys : System W) (reads : List (Text ⊎ List Text)) (table : Text) (cols : List Text)
      (header_lines : ℕ) (w : W) (n : ℕ)
    → (import_rows sys reads table cols header_lines w).1 ≡ inr n
    → Complete cols reads n
unfolding import_rows insert_import_rows
import_rows-Complete sys reads table cols header_lines w n e =
    let v = (sys.exec w savepoint).0 in
    let u = (sys.prepare v (insert_sql table cols)).0 in
    let f : (leave_savepoint sys (insert_import_rows sys reads table cols header_lines v)).1
        ≡ inr n =
      ground arith in
    let g : (insert_import_rows sys reads table cols header_lines v).1 ≡ inr n =
      leave_savepoint-inr sys (insert_import_rows sys reads table cols header_lines v) n f in
    let h : (insert_records sys (length cols) 0 header_lines reads u).1 ≡ inr n = ground arith in
    let (k, q, c) = insert_records-inr sys cols 0 header_lines reads u n h in
    let kn : k ≡ n = omega arith in rw (sym kn) c
