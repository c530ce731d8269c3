-- ===== src/Engine/Footer/Laws.antt =====
-- engine/footer.go: the footer and the image that carries it.
use execdb.Prelude.{
  ℕ, ◌+◌, ◌-◌, ◌^◌, ◌≤◌, ◌<◌, true, [], ◌++◌, take, drop, length, length-append, take-append,
  drop-append, Bytes, put_be, get_be, get_be-put_be, ◌≡◌, refl, ap, sym, arith, append_assoc,
}
use execdb.Engine.Errors.{ok}
use execdb.Engine.Footer.Defs.{
  magic, footer_size, format_version, max_data_size, Info, slice, decode_footer, encode_footer,
  footer_of, inspect_bytes, image_of,
}

-- For a file of less than 2 ^ 63 bytes, a footer that decodes and names data describes an image of
-- exactly this size, with a blob within the limit.
pub decode_footer_bounds :
    (footer : Bytes) (size : ℕ) {info : Info}
    → size < 2 ^ 63
    → decode_footer footer size ≡ ok info
    → info.has_data ≡ true
    → (info.data_offset + info.data_length + footer_size ≡ size)
      × (info.data_length ≤ max_data_size)
unfolding decode_footer
decode_footer_bounds footer size h e d = ground arith

encode_footer_parts :
    (o l : ℕ)
    → o < 2 ^ 64
    → l < 2 ^ 64
    → (slice 0 8 (encode_footer o l) ≡ magic)
      × (get_be (slice 8 12 (encode_footer o l)) ≡ format_version)
      × (get_be (slice 12 20 (encode_footer o l)) ≡ o)
      × (get_be (slice 20 28 (encode_footer o l)) ≡ l)
      × (length (encode_footer o l) ≡ footer_size)
unfolding encode_footer put_be
encode_footer_parts o l ho hl = (
  refl,
  get_be-put_be 4 format_version (omega arith),
  get_be-put_be 8 o ho,
  get_be-put_be 8 l hl,
  refl,
)

pub length-image_of :
    (e d : Bytes)
    → length e < 2 ^ 62
    → length d ≤ max_data_size
    → length (image_of e d) ≡ length e + length d + footer_size
unfolding image_of
length-image_of e d he hd = omega (
  arith,
  length-append e (d ++ encode_footer (length e) (length d)),
  length-append d (encode_footer (length e) (length d)),
  (encode_footer_parts (length e) (length d) (omega arith) (omega arith)).4,
)

footer_of-image_of :
    (e d : Bytes)
    → length e < 2 ^ 62
    → length d ≤ max_data_size
    → footer_of (image_of e d) ≡ encode_footer (length e) (length d)
unfolding footer_of
footer_of-image_of e d he hd =
    let f = encode_footer (length e) (length d) in
    let whole : image_of e d ≡ (e ++ d) ++ f = unfold image_of in sym (append_assoc e d f) in
    let size : length (image_of e d) - footer_size ≡ length (e ++ d) =
      omega (arith, length-image_of e d he hd, length-append e d) in
    ground (
      arith,
      length-image_of e d he hd,
      ap (λ n. drop n (image_of e d)) size,
      ap (drop (length (e ++ d))) whole,
      drop-append (e ++ d) f,
    )

abbrev pub written_info : Bytes → Bytes → Info
written_info e d = record {
  path = [];
  has_data = true;
  version = format_version;
  data_offset = length e;
  data_length = length d;
}

decode_footer-encode_footer :
    (o l : ℕ)
    → o < 2 ^ 62
    → l ≤ max_data_size
    → decode_footer (encode_footer o l) (o + l + footer_size)
      ≡ ok (record {
        path = [];
        has_data = true;
        version = format_version;
        data_offset = o;
        data_length = l;
      })
unfolding decode_footer
decode_footer-encode_footer o l ho hl =
    let parts = encode_footer_parts o l (omega arith) (omega arith) in
    rw (parts.2, parts.3, parts.1, parts.0) (ground arith)

-- The footer of an image gives back the version and the place of the blob, where the engine's bytes
-- are fewer than 2 ^ 62 and the blob is within the limit.
pub inspect_bytes-image_of :
    (e d : Bytes)
    → length e < 2 ^ 62
    → length d ≤ max_data_size
    → inspect_bytes (image_of e d) ≡ ok (written_info e d)
unfolding inspect_bytes
inspect_bytes-image_of e d he hd =
    rw (footer_of-image_of e d he hd, length-image_of e d he hd)
      (decode_footer-encode_footer (length e) (length d) he hd)

-- The bytes at the place that the footer names are the blob, and those before it the engine's.
pub image_of_parts :
    (e d : Bytes)
    → (take (length e) (image_of e d) ≡ e) × (take (length d) (drop (length e) (image_of e d)) ≡ d)
unfolding image_of
image_of_parts e d = (
  take-append e _,
  rw (drop-append e (d ++ encode_footer (length e) (length d))) (take-append d _),
)
