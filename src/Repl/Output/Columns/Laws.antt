-- ===== src/Repl/Output/Columns/Laws.antt =====
-- cmd/execdb/format.go: the places of the columns that `printColumnRow` prints.
use execdb.Prelude.{
  ℕ, zero, suc, ◌+◌, ◌-◌, ◌≤◌, ◌<◌, List, [], ◌∷◌, ◌++◌, map, All, Text, codes, ◌≡◌, refl, sym, ap,
  ◌∙◌, arith, length, length-append, drop, replicate, length-map,
}
use execdb.Repl.Output.{join}
use execdb.Repl.Output.Columns.{len, pad_right, widen, widen_all, widths_of, padded, column_line}

-- No text has more runes than its column's width, and there are as many columns.
abbrev pub Fits : List Text → List ℕ → Type 0
Fits [] [] = Unit
Fits [] (w ∷ ws) = ⊥
Fits (f ∷ fs) [] = ⊥
Fits (f ∷ fs) (w ∷ ws) = (length f ≤ w) × Fits fs ws

-- Where the `j`th column starts, counted in runes.
abbrev pub offset : ℕ → List ℕ → ℕ
offset zero ws = 0
offset (suc j) [] = 0
offset (suc j) (w ∷ ws) = w + (2 + offset j ws)

length-len : (s : Text) → length s ≤ len s
unfolding len
length-len [] = omega arith
length-len (c ∷ s) = let ih = length-len s in ground arith

length-replicate : (n c : ℕ) → length (replicate n c) ≡ n
length-replicate zero c = refl
length-replicate (suc n) c = ap suc (length-replicate n c)

length-pad_right : (w : ℕ) (s : Text) → length s ≤ w → length (pad_right w s) ≡ w
length-pad_right w s h = length-append s _ ∙ rw (length-replicate (w - length s) b' ') (omega arith)

drop_add-append : (p s : Text) (m n : ℕ) → m ≡ length p + n → drop m (p ++ s) ≡ drop n s
drop_add-append [] s m n e = ap (λ k. drop k s) (e ∙ omega arith)
drop_add-append (c ∷ p) s zero n e = absurd (omega arith)
drop_add-append (c ∷ p) s (suc m) n e = drop_add-append p s m n (omega arith)

column_line-cons :
    (f g : Text) (fs : List Text) (w : ℕ) (ws : List ℕ)
    → Fits (g ∷ fs) ws
    → column_line (f ∷ g ∷ fs) (w ∷ ws) ≡ pad_right w f ++ (codes "  " ++ column_line (g ∷ fs) ws)
unfolding column_line padded join
column_line-cons f g [] w [] h = absurd h
column_line-cons f g (k ∷ fs) w [] h = absurd h
column_line-cons f g [] w (v ∷ ws) h = refl
column_line-cons f g (k ∷ fs) w (v ∷ ws) h = refl

pub drop-column_line :
    (j : ℕ) (fs : List Text) (ws : List ℕ)
    → Fits fs ws
    → j < length fs
    → drop (offset j ws) (column_line fs ws) ≡ column_line (drop j fs) (drop j ws)
drop-column_line zero fs ws h lt = refl
drop-column_line (suc j) [] ws h lt = absurd (omega arith)
drop-column_line (suc j) (f ∷ []) ws h lt = absurd (omega arith)
drop-column_line (suc j) (f ∷ g ∷ fs) [] h lt = absurd h
drop-column_line (suc j) (f ∷ g ∷ fs) (w ∷ ws) h lt =
    let p = pad_right w f in
    let rest = codes "  " ++ column_line (g ∷ fs) ws in
    let e : length p ≡ w = length-pad_right w f h.0 in
    ap (drop (w + (2 + offset j ws))) (column_line-cons f g fs w ws h.1)
    ∙ drop_add-append p rest (w + (2 + offset j ws)) (suc (suc (offset j ws))) (omega arith)
    ∙ drop-column_line j (g ∷ fs) ws h.1 (omega arith)

length-widen : (ws : List ℕ) (row : List Text) → length (widen ws row) ≡ length ws
unfolding widen
length-widen [] row = refl
length-widen (w ∷ ws) [] = refl
length-widen (w ∷ ws) (s ∷ row) = ap suc (length-widen ws row)

widen-Fits : (row other : List Text) (ws : List ℕ) → Fits row ws → Fits row (widen ws other)
unfolding widen
widen-Fits [] other [] h = tt
widen-Fits [] other (w ∷ ws) h = absurd h
widen-Fits (f ∷ row) [] [] h = absurd h
widen-Fits (f ∷ row) (s ∷ other) [] h = absurd h
widen-Fits (f ∷ row) [] (w ∷ ws) h = h
widen-Fits (f ∷ row) (s ∷ other) (w ∷ ws) h =
    let le = h.0 in (ground arith, widen-Fits row other ws h.1)

widen_own-Fits : (row : List Text) (ws : List ℕ) → length row ≡ length ws → Fits row (widen ws row)
unfolding widen
widen_own-Fits [] [] e = tt
widen_own-Fits [] (w ∷ ws) e = absurd (omega arith)
widen_own-Fits (f ∷ row) [] e = absurd (omega arith)
widen_own-Fits (f ∷ row) (w ∷ ws) e =
    let le = length-len f in (ground arith, widen_own-Fits row ws (omega arith))

widen_all-Fits :
    (row : List Text) (rows : List (List Text)) (ws : List ℕ)
    → Fits row ws
    → Fits row (widen_all ws rows)
unfolding widen_all
widen_all-Fits row [] ws h = h
widen_all-Fits row (r ∷ rows) ws h = widen_all-Fits row rows (widen ws r) (widen-Fits row r ws h)

-- The number of fields of a row.
abbrev pub HasColumns : List Text → List Text → Type 0
HasColumns cols row = length row ≡ length cols

-- The `j`th field and those behind it start where the column does.
abbrev pub StartsAt : ℕ → List ℕ → List Text → Type 0
StartsAt j ws row = drop (offset j ws) (column_line row ws) ≡ column_line (drop j row) (drop j ws)

abbrev pub underline : List ℕ → List Text
underline ws = map (λ w. replicate w b'-') ws

Fits-length : (row : List Text) (ws : List ℕ) → Fits row ws → length ws ≡ length row
Fits-length [] [] h = refl
Fits-length [] (w ∷ ws) h = absurd h
Fits-length (f ∷ row) [] h = absurd h
Fits-length (f ∷ row) (w ∷ ws) h = ap suc (Fits-length row ws h.1)

underline-Fits : (ws : List ℕ) → Fits (underline ws) ws
underline-Fits [] = tt
underline-Fits (w ∷ ws) = let e = length-replicate w b'-' in (omega arith, underline-Fits ws)

Fits-StartsAt :
    (cols row : List Text) (ws : List ℕ) (j : ℕ)
    → HasColumns cols row
    → Fits row ws
    → j < length cols
    → StartsAt j ws row
Fits-StartsAt cols row ws j e h lt = drop-column_line j row ws h (omega arith)

-- The rows, of which the widths saw all.
rows-StartsAt :
    (cols : List Text) (rows : List (List Text)) (ws : List ℕ) (j : ℕ)
    → length ws ≡ length cols
    → All (HasColumns cols) rows
    → j < length cols
    → All (StartsAt j (widen_all ws rows)) rows
unfolding widen_all
rows-StartsAt cols [] ws j e hs lt = tt
rows-StartsAt cols (row ∷ rows) ws j e hs lt =
    let e' : length (widen ws row) ≡ length cols = length-widen ws row ∙ e in
    (
      Fits-StartsAt cols row (widen_all (widen ws row) rows) j hs.0
          (widen_all-Fits row rows (widen ws row) (widen_own-Fits row ws (hs.0 ∙ sym e))) lt,
      rows-StartsAt cols rows (widen ws row) j e' hs.1 lt,
    )

lens-Fits : (cols : List Text) → Fits cols (map len cols)
lens-Fits [] = tt
lens-Fits (c ∷ cols) = (length-len c, lens-Fits cols)

-- In the mode `column`, where every row has as many fields as there are columns: in the header, the
-- line below it and every row, the `j`th field starts at the same place, counted in runes, whatever
-- the texts are, and what stands from there on is the line of the remaining fields.
pub print_rows_column-StartsAt :
    (cols : List Text) (rendered : List (List Text)) (j : ℕ)
    → All (HasColumns cols) rendered
    → j < length cols
    → All
        (StartsAt j (widths_of cols rendered))
        (cols ∷ underline (widths_of cols rendered) ∷ rendered)
unfolding widths_of
print_rows_column-StartsAt cols rendered j hs lt =
    let lens = map len cols in
    let ws = widen_all lens rendered in
    let fits : Fits cols ws = widen_all-Fits cols rendered lens (lens-Fits cols) in
    let n : length ws ≡ length cols = Fits-length cols ws fits in
    let m : length (underline ws) ≡ length ws =
      sym (Fits-length (underline ws) ws (underline-Fits ws)) in
    (
      drop-column_line j cols ws fits lt,
      (
        drop-column_line j (underline ws) ws (underline-Fits ws) (omega arith),
        rows-StartsAt cols rendered lens j (length-map len cols) hs lt,
      ),
    )
