-- ===== src/Tests/Watch.antt =====
-- The watch for a disconnect, the catalog, and fields in binary format, on concrete inputs.
use execdb.Prelude.{
  ◌≤◌, ◌++◌, false, true, none, [], ◌∷◌, codes, length, ◌≡◌, ◌≢◌, ◌⊎◌, inl, refl, arith,
}
use execdb.Pg.Types.{int64, string, oid_int8, ColumnType, encode_binary, pg_typ_len}
use execdb.Pg.Values.{Formats, pg_encode_value, encode_present, text_of_value}
use execdb.Pg.Values.Fields.{pg_encode_value-length}
use execdb.Pg.Watch.{
  Watch, watch_for_disconnect, Steps, no_step, after, sends, hangs_up, read_fails, chooses, done,
  stopped,
}
use execdb.Pg.Watch.Laws.{Cause, Steps-quiet}
use execdb.Pg.Watch.Stop.{Stops, Steps-Stops, Steps-pipelined}

-- The client hangs up, and the query is cancelled.
abbrev gone : Watch
gone = record watch_for_disconnect { hung_up = true; cancelled = true; watcher = done }

gone_steps : Steps watch_for_disconnect gone
gone_steps = after (after (after no_step hangs_up) (read_fails refl (inl refl))) (chooses refl)

quiet_example :
    ([] ≡ gone.taken ++ gone.unread)
    × (length gone.taken ≤ 1)
    × ((gone.cancelled ≡ false) ⊎ Cause gone)
quiet_example = Steps-quiet gone_steps

stops_example : Stops gone
stops_example = Steps-Stops gone_steps

-- The client sends two messages, the second one before the answer to the first.
abbrev early : Watch
early = record watch_for_disconnect { arrived = b'Q' ∷ 0 ∷ []; unread = b'Q' ∷ 0 ∷ [] }

pipelined_example :
    (w : Watch) × Steps early w
    × (w.main ≡ stopped)
    × (w.hung_up ≡ false)
    × (w.cancelled ≡ true)
    × (w.arrived ≡ b'Q' ∷ 0 ∷ [])
    × (w.unread ≡ 0 ∷ [])
pipelined_example =
    Steps-pipelined b'Q' (0 ∷ []) (after (after no_step (sends b'Q')) (sends 0)) refl refl refl

abbrev plain_formats : Formats
plain_formats = record { format_float = λ f. []; format_time = λ t. [] }

-- A text in an INTEGER column.
eight : pg_typ_len oid_int8 ≢ 0xffff
unfolding pg_typ_len
eight e = absurd (omega (arith, e))

field_example :
    (length (codes "abc") ≡ pg_typ_len oid_int8)
    ⊎ ((encode_binary oid_int8 (string (codes "abc")) ≡ none)
        × (codes "abc" ≡ text_of_value plain_formats oid_int8 (string (codes "abc"))))
unfolding pg_encode_value encode_present text_of_value encode_binary
field_example =
    pg_encode_value-length plain_formats oid_int8 (string (codes "abc")) {bs = codes "abc"} eight
      refl

abbrev stamp : ColumnType
stamp = record { name = codes "t"; decl = codes "Timestamp"; sample = int64 0 }
