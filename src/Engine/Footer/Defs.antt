-- ===== src/Engine/Footer/Defs.antt =====
-- engine/footer.go: the 32-byte footer of a data file. An int64 is its bit pattern.
use execdb.Prelude.{
  ℕ, ◌+◌, ◌-◌, ◌%◌, ◌^◌, Bool, true, false, not, ◌||◌, [], ◌∷◌, ◌++◌, ◌==◌, ltb, if◌then◌else◌,
  take, drop, length, Text, codes, eq_text, Bytes, put_be, get_be, get_be_from, is_negative,
}
use execdb.Engine.Errors.{Result, ok, err, corrupt_footer}

abbrev pub magic : Bytes
magic = codes "EXECDB01"

abbrev pub footer_size : ℕ
footer_size = 32

abbrev pub format_version : ℕ
format_version = 1

abbrev pub max_data_size : ℕ
max_data_size = 2 ^ 30

pub record Info : Type 0 where
  pub path : Text
  pub has_data : Bool
  pub version : ℕ
  pub data_offset : ℕ
  pub data_length : ℕ

abbrev pub no_info : Info
no_info = record { path = []; has_data = false; version = 0; data_offset = 0; data_length = 0 }

-- `footer[from:to]`.
abbrev pub slice : ℕ → ℕ → Bytes → Bytes
slice from to bs = take (to - from) (drop from bs)

-- The sum of int64s wraps; a sum that is negative is no size.
unfoldable pub is_corrupt : ℕ → ℕ → ℕ → Bool
is_corrupt data_offset data_length size =
    is_negative 64 data_offset
    || is_negative 64 data_length
    || ltb max_data_size data_length
    || not ((data_offset + data_length + footer_size) % 2 ^ 64 == size)

unfoldable pub decode_footer : Bytes → ℕ → Result Info
unfolding is_corrupt eq_text get_be_from
decode_footer footer size =
    let data_offset = get_be (slice 12 20 footer) in
    let data_length = get_be (slice 20 28 footer) in
    if ltb size footer_size || not (eq_text (slice 0 8 footer) magic)
    then ok no_info
    else if is_corrupt data_offset data_length size
    then err corrupt_footer
    else ok (record {
      path = [];
      has_data = true;
      version = get_be (slice 8 12 footer);
      data_offset = data_offset;
      data_length = data_length;
    })

unfoldable pub encode_footer : ℕ → ℕ → Bytes
unfolding put_be
encode_footer data_offset data_length =
    magic
    ++ (put_be 4 format_version
        ++ (put_be 8 data_offset ++ (put_be 8 data_length ++ (0 ∷ 0 ∷ 0 ∷ 0 ∷ []))))

-- The last `FooterSize` bytes of an image, if it has as many, as `Inspect` and `LoadFrom` take them.
unfoldable pub footer_of : Bytes → Bytes
footer_of image =
    if ltb (length image) footer_size then [] else drop (length image - footer_size) image

-- `Inspect` on the bytes of a file, but for the path that it fills in.
unfoldable pub inspect_bytes : Bytes → Result Info
unfolding footer_of decode_footer
inspect_bytes image = decode_footer (footer_of image) (length image)

-- `writeImage`, as the bytes that it writes.
unfoldable pub image_of : Bytes → Bytes → Bytes
unfolding encode_footer
image_of engine_bytes blob =
    engine_bytes ++ (blob ++ encode_footer (length engine_bytes) (length blob))
