-- ===== src/Pg/Messages/Laws.antt =====
-- cmd/execdb/pgextended.go: Parse and Bind messages as a client writes them.
use execdb.Prelude.{
  ℕ, ◌^◌, ◌<◌, true, Option, none, some, List, [], ◌∷◌, ◌++◌, Text, length, Bytes, put_be,
  get_be-put_be, length-put_be, All, ◌≡◌, refl, sym, ap, ◌∙◌, arith, append_assoc,
}
use execdb.Pg.Wire.{read_full, field_bytes, fields_bytes}
use execdb.Pg.Wire.Laws.{read_full-append, no_zero, read_cstring-cstring}
use execdb.Pg.Messages.{
  read_int, read_ints, read_counted, parse_parse_message, read_sized_value, read_value, read_values,
  Bind, parse_bind_rest, parse_bind_message,
}

read_int-put_be :
    (w v : ℕ) (rest : Bytes) → v < 256 ^ w → read_int w (put_be w v ++ rest) ≡ some (v, rest)
unfolding read_int
read_int-put_be w v rest h =
    let e : read_full w (put_be w v ++ rest) ≡ some (put_be w v, rest) =
      ap (λ k. read_full k (put_be w v ++ rest)) (sym (length-put_be w v))
      ∙ read_full-append (put_be w v) rest in
    ground (arith, e, get_be-put_be w v h)

abbrev pub ints_bytes : ℕ → List ℕ → Bytes
ints_bytes w [] = []
ints_bytes w (v ∷ vs) = put_be w v ++ ints_bytes w vs

read_ints-ints_bytes :
    (w : ℕ) (vs : List ℕ) (rest : Bytes)
    → All (λ v. v < 256 ^ w) vs
    → read_ints w (length vs) (ints_bytes w vs ++ rest) ≡ some (vs, rest)
unfolding read_ints
read_ints-ints_bytes w [] rest h = refl
read_ints-ints_bytes w (v ∷ vs) rest h = ground (
  arith,
  append_assoc (put_be w v) (ints_bytes w vs) rest,
  read_int-put_be w v (ints_bytes w vs ++ rest) h.0,
  read_ints-ints_bytes w vs rest h.1,
)

read_counted-ints_bytes :
    (w : ℕ) (vs : List ℕ) (rest : Bytes)
    → length vs < 2 ^ 16
    → All (λ v. v < 256 ^ w) vs
    → read_counted w (put_be 2 (length vs) ++ (ints_bytes w vs ++ rest)) ≡ some (vs, rest)
unfolding read_counted
read_counted-ints_bytes w vs rest n h = ground (
  arith,
  read_int-put_be 2 (length vs) (ints_bytes w vs ++ rest) n,
  read_ints-ints_bytes w vs rest h,
)

-- A value that its length can say.
abbrev pub Fits : Option Bytes → Type 0
Fits none = Unit
Fits (some v) = length v < 2 ^ 31

read_value-field_bytes :
    (v : Option Bytes) (rest : Bytes) → Fits v → read_value (field_bytes v ++ rest) ≡ some (v, rest)
unfolding read_value field_bytes read_sized_value
read_value-field_bytes none rest h =
    ground (arith, read_int-put_be 4 0xffff_ffff rest (omega arith))
read_value-field_bytes (some v) rest h = ground (
  arith,
  append_assoc (put_be 4 (length v)) v rest,
  read_int-put_be 4 (length v) (v ++ rest) (omega arith),
  read_full-append v rest,
)

read_values-fields_bytes :
    (vs : List (Option Bytes)) (rest : Bytes)
    → All Fits vs
    → read_values (length vs) (fields_bytes vs ++ rest) ≡ some (vs, rest)
unfolding read_values fields_bytes
read_values-fields_bytes [] rest h = refl
read_values-fields_bytes (v ∷ vs) rest h = ground (
  arith,
  append_assoc (field_bytes v) (fields_bytes vs) rest,
  read_value-field_bytes v (fields_bytes vs ++ rest) h.0,
  read_values-fields_bytes vs rest h.1,
)

-- A Parse message, as a client writes it.
unfoldable pub parse_bytes : Text → Text → List ℕ → Bytes
parse_bytes stmt_name query param_oids =
    stmt_name
    ++ (0 ∷ (query ++ (0 ∷ (put_be 2 (length param_oids) ++ (ints_bytes 4 param_oids ++ [])))))

-- A Parse message whose parts fit their fields comes apart into the name, the query and the types
-- that its client put into it.
pub parse_parse_message-parse_bytes :
    (stmt_name query : Text) (param_oids : List ℕ)
    → no_zero stmt_name ≡ true
    → no_zero query ≡ true
    → length param_oids < 2 ^ 16
    → All (λ o. o < 256 ^ 4) param_oids
    → parse_parse_message (parse_bytes stmt_name query param_oids)
      ≡ some (stmt_name, query, param_oids)
unfolding parse_parse_message parse_bytes
parse_parse_message-parse_bytes stmt_name query param_oids hs hq n h =
    let oids = put_be 2 (length param_oids) ++ (ints_bytes 4 param_oids ++ []) in
    ground (
      arith,
      read_cstring-cstring stmt_name (query ++ (0 ∷ oids)) hs,
      read_cstring-cstring query oids hq,
      read_counted-ints_bytes 4 param_oids [] n h,
    )

-- A Bind message, as a client writes it.
unfoldable pub bind_bytes : Bind → Bytes
bind_bytes b =
    b.portal_name
    ++ (0
        ∷ (b.stmt_name
            ++ (0
                ∷ (put_be 2 (length b.param_formats)
                    ++ (ints_bytes 2 b.param_formats
                        ++ (put_be 2 (length b.param_values)
                            ++ (fields_bytes b.param_values
                                ++ (put_be 2 (length b.result_formats)
                                    ++ (ints_bytes 2 b.result_formats ++ [])))))))))

-- What the fields of the message can hold.
abbrev pub Sendable : Bind → Type 0
Sendable b =
    (no_zero b.portal_name ≡ true)
    × (no_zero b.stmt_name ≡ true)
    × (length b.param_formats < 2 ^ 16)
    × All (λ f. f < 256 ^ 2) b.param_formats
    × (length b.param_values < 2 ^ 16)
    × All Fits b.param_values
    × (length b.result_formats < 2 ^ 16)
    × All (λ f. f < 256 ^ 2) b.result_formats

parse_bind_rest-ok :
    (p s : Text) (pf : List ℕ) (pv : List (Option Bytes)) (rf : List ℕ)
    → length pf < 2 ^ 16
    → All (λ f. f < 256 ^ 2) pf
    → length pv < 2 ^ 16
    → All Fits pv
    → length rf < 2 ^ 16
    → All (λ f. f < 256 ^ 2) rf
    → parse_bind_rest p s (
        put_be 2 (length pf)
        ++ (ints_bytes 2 pf
            ++ (put_be 2 (length pv)
                ++ (fields_bytes pv ++ (put_be 2 (length rf) ++ (ints_bytes 2 rf ++ []))))))
      ≡ some (record {
        portal_name = p;
        stmt_name = s;
        param_formats = pf;
        param_values = pv;
        result_formats = rf;
      })
unfolding parse_bind_rest
parse_bind_rest-ok p s pf pv rf npf hpf npv hpv nrf hrf =
    let rest₃ = put_be 2 (length rf) ++ (ints_bytes 2 rf ++ []) in
    let rest₁ = put_be 2 (length pv) ++ (fields_bytes pv ++ rest₃) in
    ground (
      arith,
      read_counted-ints_bytes 2 pf rest₁ npf hpf,
      read_int-put_be 2 (length pv) (fields_bytes pv ++ rest₃) npv,
      read_values-fields_bytes pv rest₃ hpv,
      read_counted-ints_bytes 2 rf [] nrf hrf,
    )

-- A Bind message whose parts fit their fields comes apart into what its client put into it, NULLs
-- and empty values kept apart.
pub parse_bind_message-bind_bytes :
    (b : Bind) → Sendable b → parse_bind_message (bind_bytes b) ≡ some b
unfolding parse_bind_message bind_bytes
parse_bind_message-bind_bytes b (hp, hs, npf, hpf, npv, hpv, nrf, hrf) =
    let formats =
      put_be 2 (length b.param_formats)
      ++ (ints_bytes 2 b.param_formats
          ++ (put_be 2 (length b.param_values)
              ++ (fields_bytes b.param_values
                  ++ (put_be 2 (length b.result_formats)
                      ++ (ints_bytes 2 b.result_formats ++ []))))) in
    ground (
      arith,
      read_cstring-cstring b.portal_name (b.stmt_name ++ (0 ∷ formats)) hp,
      read_cstring-cstring b.stmt_name formats hs,
      parse_bind_rest-ok b.portal_name b.stmt_name b.param_formats b.param_values b.result_formats
          npf hpf npv hpv nrf hrf,
    )
