-- ===== src/Tests/Pg.antt =====
-- The wire format on concrete messages.
use execdb.Prelude.{
  ℕ, true, false, List, [], ◌∷◌, ◌++◌, none, some, Text, codes, Bytes, ◌≡◌, refl, arith, put_be,
  length, eq_text, suc,
}
use execdb.Pg.Types.{int64, oid_int8, encode_binary, decode_binary_param}
use execdb.Pg.Types.Laws.{an_int8, decode-encode_binary}
use execdb.Pg.Wire.{Reply, data_row, ready_for_query, command_complete, replies_bytes}
use execdb.Pg.Wire.Laws.{read_messages, kinds_and_bodies, read_messages-replies_bytes}
use execdb.Pg.Handshake.{
  read_startup_header, read_startup_params, handle_cancel_request, perform_handshake, ready,
  cancels, panics, code_cancel_request, protocol_version3,
}
use execdb.Pg.Handshake.Laws.{header, encryption_requests, perform_handshake-short_cancel}
use execdb.Pg.Messages.{count_placeholders}
use execdb.Pg.Session.{handle_set, handle_show, match_set, match_show, lower}
use execdb.Pg.Session.Laws.{handle_show-handle_set}
use execdb.Pg.Wire.{row_description, kind_and_body}
use execdb.Pg.Types.{oid_text}

abbrev id : ℕ → ℕ
id n = n

encode_example :
    (bs : Bytes) × (encode_binary oid_int8 (int64 300) ≡ some bs)
    × (decode_binary_param id oid_int8 bs ≡ some (int64 300))
encode_example = decode-encode_binary id (an_int8 300 (omega arith))

abbrev replies : List Reply
replies =
    data_row (none ∷ some (codes "x") ∷ [])
    ∷ command_complete (codes "SELECT 1")
    ∷ ready_for_query b'I'
    ∷ []

replies_example : read_messages (length replies) (replies_bytes replies) ≡ kinds_and_bodies replies
unfolding put_be kind_and_body
replies_example =
    read_messages-replies_bytes replies (omega arith, (omega arith, (omega arith, tt)))

abbrev startup : Bytes
startup =
    encryption_requests (false ∷ true ∷ [])
    ++ (header 16 protocol_version3 ++ (codes "user" ++ (0 ∷ (codes "x" ++ (0 ∷ 0 ∷ 9 ∷ [])))))

handshakes :
    (perform_handshake 100 startup 0 ≡ (ready ((codes "user", codes "x") ∷ []) (9 ∷ []), 2))
    × (perform_handshake 1 (header 16 code_cancel_request ++ header 7 9) 0 ≡ (cancels 7 9, 0))
unfolding perform_handshake put_be read_startup_header read_startup_params handle_cancel_request
handshakes = (refl, refl)

short_cancel_example :
    perform_handshake (suc 0) (header 4 code_cancel_request ++ (1 ∷ [])) 0 ≡ (panics, 0)
short_cancel_example = perform_handshake-short_cancel 0 4 (1 ∷ []) 0 (omega arith)

placeholders : count_placeholders (codes "SELECT $2, '$9', \"$8\", $1 -- $7") ≡ 2
unfolding count_placeholders
placeholders = refl

abbrev a_set : Text
a_set = codes "set Session  DateStyle = 'it''s' "

set_example :
    handle_show (handle_set [] a_set).0 (codes "SHOW datestyle")
    ≡ row_description (record { name = codes "datestyle"; oid = oid_text; binary = false } ∷ [])
      ∷ data_row (some (codes "it's") ∷ [])
      ∷ command_complete (codes "SHOW")
      ∷ []
unfolding match_set match_show lower eq_text
set_example = handle_show-handle_set [] a_set (codes "SHOW datestyle") refl refl refl refl
