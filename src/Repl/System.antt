-- ===== src/Repl/System.antt =====
-- cmd/execdb: what the shell calls, as operations on the state of all that is behind them.
use execdb.Prelude.{ℕ, Bool, Option, List, Text, ◌⊎◌, inl, inr, ◌≡◌, ap, ◌∙◌}
use execdb.Repl.Names.{Host}
use execdb.Repl.Output.{Printed, Printers, Rows, silent, also}

-- The variable that `Scan` fills: a `string`, or a `sql.NullString`, of which `.String` is read.
pub data Dest : Type 0 where
  string_dest null_string_dest : Dest

-- `*sql.Rows` whose rows are scanned into strings.
pub record TextRows : Type 0 where
  pub scans : List (List Dest → Text ⊎ List Text)
  pub failed : Option Text

-- The methods of `engine.Session` and of `engine.DB`, and `strconv.Atoi` and `Complete`, which have no
-- state. A message is the text of an error. `prepare` stands for the statement too, since the shell has
-- one at a time; `query_count` is `QueryRow` of a `count(*)`, scanned; `inspect` gives `HasData` and
-- `Version`, and `none` where it fails.
pub record System (W : Type 0) : Type 0 where
  pub query : W → Text → W × (Text ⊎ Rows)
  pub query_texts : W → Text → List Text → W × (Text ⊎ TextRows)
  pub query_count : W → Text → List Text → W × (Text ⊎ ℕ)
  pub exec : W → Text → W × Option Text
  pub prepare : W → Text → W × Option Text
  pub exec_prepared : W → List Text → W × Option Text
  pub snapshot : W → Text → W × Option Text
  pub overwrite : W → W × Option Text
  pub load : W → Text → W × Option Text
  pub inspect : W → Text → Option (Bool × ℕ)
  pub host : W → Host
  pub open_csv : W → Text → Text ⊎ List (Text ⊎ List Text)
  pub atoi : Text → Option ℕ
  pub is_complete : Text → Bool
  pub printers : Printers

-- The value of a function that returns an error only.
abbrev pub Done : Type 0
Done = Unit

-- A function of the shell: it changes the state, prints, and returns a value or an error.
abbrev pub Run : Type 0 → Type 0 → Type 0
Run W A = W → W × (Printed × (Text ⊎ A))

module _ {W : Type 0} where
  abbrev pub done : {A : Type 0} → A → Run W A
  done a w = (w, (silent, inr a))

  abbrev pub fails : {A : Type 0} → Text → Run W A
  fails message w = (w, (silent, inl message))

  abbrev pub prints : Printed → Run W Done
  prints p w = (w, (p, inr tt))

  -- What has been printed, in front of what else is.
  abbrev pub behind :
      {B : Type 0} → Printed → W × (Printed × (Text ⊎ B)) → W × (Printed × (Text ⊎ B))
  behind p (w, (q, r)) = (w, (also p q, r))

  -- `if err != nil { return err }` behind a call.
  abbrev pub carry :
      {A B : Type 0} → (A → Run W B) → W × (Printed × (Text ⊎ A)) → W × (Printed × (Text ⊎ B))
  carry next (w, (p, inl message)) = (w, (p, inl message))
  carry next (w, (p, inr a)) = behind p (next a w)

  unfoldable pub and_then : {A B : Type 0} → Run W A → (A → Run W B) → Run W B
  and_then run next w = carry next (run w)

  pub and_then-inr :
      {A B : Type 0}
      → (run : Run W A) (next : A → Run W B) (w v u : W) (p q : Printed) (a : A) (b : B)
      → run w ≡ (v, (p, inr a))
      → next a v ≡ (u, (q, inr b))
      → and_then run next w ≡ (u, (also p q, inr b))
  unfolding and_then
  and_then-inr run next w v u p q a b e f = ap (carry next) e ∙ ap (behind p) f
