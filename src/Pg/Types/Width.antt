-- ===== src/Pg/Types/Width.antt =====
-- cmd/execdb/pgtype.go: the lengths of values in binary format.
use execdb.Prelude.{ℕ, some, length, length-put_be, Bytes, ◌≡◌, ◌⊎◌, arith}
use execdb.Pg.Types.{
  Value, null, int64, float64, boolean, blob, string, time, encode_binary, pg_typ_len,
  truncate_micros,
}

pub encode_binary-length :
    (oid : ℕ) (v : Value) {bs : Bytes}
    → encode_binary oid v ≡ some bs
    → (length bs ≡ pg_typ_len oid) ⊎ (pg_typ_len oid ≡ 0xffff)
unfolding encode_binary pg_typ_len
encode_binary-length oid (int64 v) e = ground (arith, e, length-put_be 8 v)
encode_binary-length oid (float64 v) e = ground (arith, e, length-put_be 8 v)
encode_binary-length oid (boolean b) e = ground (arith, e)
encode_binary-length oid (blob b) e = ground (arith, e)
encode_binary-length oid (time t) e = ground (arith, e, length-put_be 8 (truncate_micros t))
encode_binary-length oid null e = absurd (ground (arith, e))
encode_binary-length oid (string s) e = absurd (ground (arith, e))
