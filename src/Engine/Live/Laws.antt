-- ===== src/Engine/Live/Laws.antt =====
-- engine/engine.go and engine/session.go: handles of database/sql are closed once, and none is left.
use execdb.Prelude.{
  ℕ, ◌<◌, ◌≤◌, Bool, true, false, ◌||◌, ◌==◌, Text, Bytes, ◌≡◌, inl, inr, refl, arith, Option-cases,
}
use execdb.Engine.Errors.{Error, Result, ok, err, Result-cases}
use execdb.Engine.Db.{Loaded}
use execdb.Engine.Live.{Handles, Live, new_live_db, close, open_new, open_with, open_live}

-- What holds behind `Open` of the handles there were: a failure leaves no handle open, a success
-- two, the pool and the keeper.
abbrev pub Opens : Handles → Result Live × Handles → Type 0
Opens w (err e, v) = ((k : ℕ) → v.is_open k ≡ w.is_open k) × (v.misused ≡ w.misused)
Opens w (ok db, v) =
    ((k : ℕ) → v.is_open k ≡ (k == db.sdb || k == db.keeper || w.is_open k))
    × (v.misused ≡ w.misused)
    × (db.is_closed ≡ false)
    × (w.next ≤ db.sdb)
    × (db.sdb < db.keeper)
    × (db.keeper < v.next)

-- No handle that is still to come is open.
abbrev pub Fresh : Handles → Type 0
Fresh w = (k : ℕ) → w.next ≤ k → w.is_open k ≡ false

new_live_db-Opens :
    (open_fails conn_fails : Bool) (w : Handles)
    → Fresh w
    → Opens w (new_live_db open_fails conn_fails w)
unfolding new_live_db
new_live_db-Opens true conn_fails w f = (λ k. refl, refl)
new_live_db-Opens false true w f = (λ k. ground (arith, f k), ground arith)
new_live_db-Opens false false w f =
    (λ k. ground arith, refl, refl, omega arith, omega arith, omega arith)

close-Opens :
    (db : Live) (w v : Handles)
    → Fresh w
    → Opens w (ok db, v)
    → (e : Error) → Opens w (err e, (close db v).1)
unfolding close
close-Opens db w v f (o, m, c, s, t, n) e =
    (λ k. ground (arith, f k, o k, c, s, t), ground (arith, o db.keeper, o db.sdb, m, c, s, t))

open_new-Opens :
    (path : Text) (loaded : Result Loaded) (load_blob_into : Bytes → Text → Result (Unit {0}))
    (db : Live) (w v : Handles)
    → Fresh w
    → Opens w (ok db, v)
    → Opens w (open_new path loaded load_blob_into db v)
unfolding open_new
open_new-Opens path (err e) load_blob_into db w v f h = close-Opens db w v f h e
open_new-Opens path (ok l) load_blob_into db₀ w v f h =
    let db = record db₀ { source_path = path; engine_size = l.engine_size; info = l.info } in
    elim (Option-cases l.blob) [
      | inl p ↦ rw (p, Opens, open_new) h
      | inr (blob, p) ↦
          rw (p, Opens, open_new)
            (elim (Result-cases (load_blob_into blob db.dsn)) [
              | inl (e, q) ↦ rw (q, Opens, open_new) (close-Opens db w v f h e)
              | inr (u, q) ↦ rw (q, Opens, open_new) h
            ])
    ]

open_with-Opens :
    (path : Text) (loaded : Result Loaded) (load_blob_into : Bytes → Text → Result (Unit {0}))
    (w : Handles) (r : Result Live × Handles)
    → Fresh w
    → Opens w r
    → Opens w (open_with path loaded load_blob_into r)
unfolding open_with
open_with-Opens path loaded load_blob_into w (err e, v) f h = h
open_with-Opens path loaded load_blob_into w (ok db, v) f h =
    open_new-Opens path loaded load_blob_into db w v f h

-- Where no handle that is still to come is open, an `Open` that fails, at whichever call, leaves
-- open the handles of database/sql that were open before and no other; one that succeeds leaves
-- open two more, the pool and the keeper. Neither closes a handle that is not open.
pub open_live-Opens :
    (open_fails conn_fails : Bool) (path : Text) (loaded : Result Loaded)
    (load_blob_into : Bytes → Text → Result (Unit {0})) (w : Handles)
    → Fresh w
    → Opens w (open_live open_fails conn_fails path loaded load_blob_into w)
unfolding open_live
open_live-Opens open_fails conn_fails path loaded load_blob_into w f =
    open_with-Opens path loaded load_blob_into w (new_live_db open_fails conn_fails w) f
      (new_live_db-Opens open_fails conn_fails w f)
