-- ===== src/Pg/Server/Laws.antt =====
-- cmd/execdb/pgwire.go: who reaches the session, and what a connection leaves in the registry.
use execdb.Prelude.{
  ℕ, ◌+◌, Bool, true, false, none, List, [], ◌∷◌, Text, length, Bytes, Map, ◌≡◌, inl, inr, refl, ap,
  arith, Bool-cases, Option-cases,
}
use execdb.Pg.Wire.{Reply}
use execdb.Pg.Conn.{Driver}
use execdb.Pg.Cancel.{
  CancelKey, Registry, register, unregister, cancel, entry_of, remove_entry, fresh_key,
  cancel_current, same_key,
}
use execdb.Pg.Cancel.Laws.{fresh_key-is_fresh}
use execdb.Pg.Handshake.{
  Handshake, ready, unusable, cancels, panics, waits, perform_handshake, authenticate_connection,
}
use execdb.Pg.Handshake.Laws.{Admitted, authenticate_connection-Admitted}
use execdb.Pg.Server.{
  Setting, Served, turned_away, no_session, served, crashed, handle_connection, after_handshake,
  authenticate_and_admit, admit,
}

module _ (d : Driver) where
  -- Whether a session was opened, or tried to.
  abbrev pub has_session : Served d → Bool
  has_session (turned_away _) = false
  has_session (no_session _ _) = true
  has_session (served _ _) = true
  has_session crashed = false

  authenticate_and_admit-Admitted :
      (g : Setting d) (r : Registry) (params : Map Text) (db : d.State) (rest : Bytes)
      → has_session (authenticate_and_admit d g r params db rest).0 ≡ true
      → Admitted g.user g.password params rest
  unfolding authenticate_and_admit
  authenticate_and_admit-Admitted g r params db rest e =
      authenticate_connection-Admitted rest g.user g.password params (ground arith)

  after_handshake-Admitted :
      (g : Setting d) (r : Registry) (db : d.State) (h : Handshake)
      → has_session (after_handshake d g r db h).0 ≡ true
      → (params : Map Text) × (rest : Bytes) × (h ≡ ready params rest)
        × Admitted g.user g.password params rest
  unfolding after_handshake
  after_handshake-Admitted g r db unusable e = absurd (ground arith)
  after_handshake-Admitted g r db waits e = absurd (ground arith)
  after_handshake-Admitted g r db panics e = absurd (ground arith)
  after_handshake-Admitted g r db (cancels pid secret) e = absurd (ground arith)
  after_handshake-Admitted g r db (ready params rest) e =
      (params, rest, refl, authenticate_and_admit-Admitted g r params db rest e)

  -- Whatever bytes a client sends: if its connection comes to open a session of the database, then
  -- the handshake gave its startup parameters, and no user is required, or its next message is a
  -- password message with the password, and the user of its startup is the one that is required.
  pub handle_connection-Admitted :
      (g : Setting d) (r : Registry) (db : d.State) (bs : Bytes)
      → has_session (handle_connection d g r db bs).0 ≡ true
      → (params : Map Text) × (rest : Bytes) × ((perform_handshake (length bs + 1) bs 0).0
          ≡ ready params rest)
        × Admitted g.user g.password params rest
  unfolding handle_connection
  handle_connection-Admitted g r db bs e =
      after_handshake-Admitted g r db (perform_handshake (length bs + 1) bs 0).0 e

  remove_entry-none :
      (key : CancelKey) (entries : List (CancelKey × ℕ))
      → entry_of key entries ≡ none
      → remove_entry key entries ≡ entries
  unfolding entry_of remove_entry
  remove_entry-none key [] e = refl
  remove_entry-none key ((k, cc) ∷ entries) e = elim (Bool-cases (same_key k key)) [
    | inl q ↦ absurd (ground arith)
    | inr q ↦ rw q (ap (◌∷◌ (k, cc)) (remove_entry-none key entries (ground arith)))
  ]

  same_key_refl : (key : CancelKey) → same_key key key ≡ true
  same_key_refl key = ground arith

  admit-entries :
      (g : Setting d) (r : Registry) (replies : List Reply) (db : d.State) (rest : Bytes)
      → (admit d g r replies db rest).1.entries ≡ r.entries
  unfolding admit register unregister remove_entry
  admit-entries g r replies db rest = elim (Option-cases (fresh_key g.keys r.entries)) [
    | inl q ↦ rw (q, admit) refl
    | inr (key, q) ↦
        let n = remove_entry-none key r.entries (fresh_key-is_fresh g.keys r.entries q) in
        rw (q, admit) rw (same_key_refl key) n
  ]

  authenticate_and_admit-entries :
      (g : Setting d) (r : Registry) (params : Map Text) (db : d.State) (rest : Bytes)
      → (authenticate_and_admit d g r params db rest).1.entries ≡ r.entries
  unfolding authenticate_and_admit
  authenticate_and_admit-entries g r params db rest =
      let (usable, replies, rest') = authenticate_connection rest g.user g.password params in
      let k = admit-entries g r replies db rest' in ground arith

  after_handshake-entries :
      (g : Setting d) (r : Registry) (db : d.State) (h : Handshake)
      → (after_handshake d g r db h).1.entries ≡ r.entries
  unfolding after_handshake cancel cancel_current
  after_handshake-entries g r db unusable = refl
  after_handshake-entries g r db waits = refl
  after_handshake-entries g r db panics = refl
  after_handshake-entries g r db (cancels pid secret) = ground arith
  after_handshake-entries g r db (ready params rest) =
      authenticate_and_admit-entries g r params db rest

  -- Whatever a client sends, behind its connection the registry has the same keys as before it, in
  -- the same order, CancelRequests included.
  pub handle_connection-entries :
      (g : Setting d) (r : Registry) (db : d.State) (bs : Bytes)
      → (handle_connection d g r db bs).1.entries ≡ r.entries
  unfolding handle_connection
  handle_connection-entries g r db bs =
      after_handshake-entries g r db (perform_handshake (length bs + 1) bs 0).0
