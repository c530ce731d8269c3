-- ===== src/Pg/Dispatch/Skip.antt =====
-- cmd/execdb/pgwire.go: the messages between an error and the next Sync.
use execdb.Prelude.{true, false, List, [], ◌∷◌, ◌++◌, All, ◌≡◌, refl, arith}
use execdb.Pg.Wire.{Message, ready_for_query}
use execdb.Pg.Conn.{Driver, Conn}
use execdb.Pg.Dispatch.{dispatch, run, goes_on, is_extended}

abbrev pub sync : Message
sync = record { kind = b'S'; body = [] }

module _ (d : Driver) where
  dispatch-skips :
      (c : Conn d.State) (msg : Message)
      → c.in_error ≡ true
      → is_extended msg.kind ≡ true
      → dispatch d c msg ≡ goes_on c []
  unfolding dispatch is_extended
  dispatch-skips c msg e k = ground arith

  -- In the error state, however many messages of the extended protocol come before a Sync, the
  -- connection and the database stay as they are but for the error state, which ends, and the one
  -- answer is the Sync's.
  pub run-skips :
      (c : Conn d.State) (msgs : List Message)
      → c.in_error ≡ true
      → All (λ msg. is_extended msg.kind ≡ true) msgs
      → run d c (msgs ++ (sync ∷ []))
        ≡ goes_on (record c { in_error = false }) (ready_for_query c.tx_state ∷ [])
  unfolding run dispatch is_extended
  run-skips c [] e h = refl
  run-skips c (msg ∷ msgs) e h = ground (arith, dispatch-skips c msg e h.0, run-skips c msgs e h.1)
