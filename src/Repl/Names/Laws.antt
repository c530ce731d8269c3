-- ===== src/Repl/Names/Laws.antt =====
-- cmd/execdb/filename.go: `snapshotFilename` of a name that it gave before.
use execdb.Prelude.{
  ℕ, zero, suc, ◌-◌, Bool, true, false, not, ◌&&◌, ◌||◌, ◌==◌, if◌then◌else◌, [], ◌∷◌, ◌++◌, Text,
  codes, is_empty, length, length-append, take, drop, take-append, drop-append, eq_text, ◌≡◌, inl,
  inr, refl, sym, ap, ◌∙◌, arith, append-nil, Bool-cases,
}
use execdb.Repl.Names.{
  has_slash, ext, trim_suffix, all_digits, is_timestamp_suffix, strip_timestamp, snapshot_filename,
}

-- Neither a `/` nor a `.`.
abbrev is_plain : Text → Bool
is_plain [] = true
is_plain (c ∷ s) = not (c == b'/') && (not (c == b'.') && is_plain s)

-- A suffix that `timestampSuffixPattern` matches.
abbrev pub IsStamp : Text → Type 0
IsStamp t = (length t ≡ 14) × (all_digits t ≡ true)

all_digits-is_plain : (t : Text) → all_digits t ≡ true → is_plain t ≡ true
all_digits-is_plain [] e = refl
all_digits-is_plain (c ∷ t) e = let ih = all_digits-is_plain t in grind arith

stamp-is_plain : (t : Text) → IsStamp t → is_plain (b'_' ∷ t) ≡ true
stamp-is_plain t h = all_digits-is_plain t h.1

has_slash-append : (x d : Text) → is_plain d ≡ true → has_slash (x ++ d) ≡ has_slash x
has_slash-append [] [] e = refl
has_slash-append [] (c ∷ d) e = let ih = has_slash-append [] d in grind arith
has_slash-append (c ∷ x) d e = ap (λ b. c == b'/' || b) (has_slash-append x d e)

ext-is_plain : (d : Text) → is_plain d ≡ true → ext d ≡ []
unfolding ext
ext-is_plain [] e = refl
ext-is_plain (c ∷ d) e = let ih = ext-is_plain d in ground arith

-- What has no extension has none behind a plain text, and the other way round.
ext-append : (x d : Text) → is_plain d ≡ true → is_empty (ext (x ++ d)) ≡ is_empty (ext x)
unfolding ext
ext-append [] d e = ap is_empty (ext-is_plain d e)
ext-append (c ∷ x) d e =
    let ih = ext-append x d e in
    let h = has_slash-append x d e in
    elim (Bool-cases (is_empty (ext x))) [
      | inl q ↦
          rw (h, ih ∙ q, q)
            elim (Bool-cases (c == b'.' && not (has_slash x))) [
              | inl r ↦ rw r refl
              | inr r ↦ rw r refl
            ]
      | inr q ↦ rw (h, ih ∙ q, q) (ih ∙ refl)
    ]

-- An extension is its own, behind any text.
ext-behind : (y e : Text) → ext e ≡ e → is_empty e ≡ false → ext (y ++ e) ≡ e
unfolding ext
ext-behind [] e h n = h
ext-behind (c ∷ y) e h n = rw (ext-behind y e h n, n) refl

ext-ext : (s : Text) → ext (ext s) ≡ ext s
unfolding ext
ext-ext [] = refl
ext-ext (c ∷ s) =
    let ih = ext-ext s in
    elim (Bool-cases (is_empty (ext s))) [
      | inl q ↦ elim (Bool-cases (c == b'.' && not (has_slash s))) [
        | inl r ↦ rw (q, r) rw (q, r) refl
        | inr r ↦ rw (q, r) refl
      ]
      | inr q ↦ rw q ih
    ]

take-drop : (n : ℕ) (s : Text) → take n s ++ drop n s ≡ s
take-drop zero s = refl
take-drop (suc n) [] = refl
take-drop (suc n) (c ∷ s) = ap (◌∷◌ c) (take-drop n s)

trim_suffix-append : (y e : Text) → trim_suffix (y ++ e) e ≡ y
trim_suffix-append y e =
    let n : length (y ++ e) - length e ≡ length y = rw (length-append y e) (omega arith) in
    rw n (take-append y e)

stamp-is_timestamp_suffix : (t : Text) → IsStamp t → is_timestamp_suffix (b'_' ∷ t) ≡ true
unfolding is_timestamp_suffix
stamp-is_timestamp_suffix t (l, d) = rw (l, d) refl

is_timestamp_suffix-is_plain : (s : Text) → is_timestamp_suffix s ≡ true → is_plain s ≡ true
unfolding is_timestamp_suffix
is_timestamp_suffix-is_plain [] e = refl
is_timestamp_suffix-is_plain (c ∷ s) e = let h = all_digits-is_plain s in grind arith

strip_timestamp-append : (x t : Text) → IsStamp t → strip_timestamp (x ++ (b'_' ∷ t)) ≡ x
unfolding strip_timestamp
strip_timestamp-append x t h =
    let n : length (x ++ (b'_' ∷ t)) - 15 ≡ length x =
      rw (length-append x (b'_' ∷ t)) (let l = h.0 in omega arith) in
    rw (n, drop-append x (b'_' ∷ t), stamp-is_timestamp_suffix t h) (take-append x (b'_' ∷ t))

strip_timestamp-ext : (name : Text) → is_empty (ext (strip_timestamp name)) ≡ is_empty (ext name)
unfolding strip_timestamp
strip_timestamp-ext name =
    let n = length name - 15 in
    elim (Bool-cases (is_timestamp_suffix (drop n name))) [
      | inl q ↦ rw q (
          sym
            (ext-append (take n name) (drop n name) (is_timestamp_suffix-is_plain (drop n name) q))
          ∙ ap (λ s. is_empty (ext s)) (take-drop n name))
      | inr q ↦ rw q refl
    ]

-- The part of the name behind its extension's removal, and the extension that it is given.
abbrev stem : Text → Text
stem base = strip_timestamp (trim_suffix base (ext base))

abbrev suffix_for : Text → Text → Text
suffix_for goos e = if is_empty e && eq_text goos (codes "windows") then codes ".exe" else e

snapshot_filename-behind :
    (x t u e goos : Text)
    → IsStamp t
    → ext e ≡ e
    → is_empty e ≡ false
    → snapshot_filename ((x ++ (b'_' ∷ t)) ++ e) true u goos ≡ (x ++ (b'_' ∷ u)) ++ e
unfolding snapshot_filename
snapshot_filename-behind x t u e goos h s n =
    rw
      (
        ext-behind (x ++ (b'_' ∷ t)) e s n,
        trim_suffix-append (x ++ (b'_' ∷ t)) e,
        n,
        strip_timestamp-append x t h,
      )
      refl

is_empty-nil : (s : Text) → is_empty s ≡ true → s ≡ []
is_empty-nil [] e = refl
is_empty-nil (c ∷ s) e = cc

trim_suffix-nil : (s : Text) → trim_suffix s [] ≡ s
trim_suffix-nil s = ap (λ t. trim_suffix t []) (sym (append-nil s)) ∙ trim_suffix-append s []

-- Without an extension, and on a system that wants none.
snapshot_filename-bare :
    (base now goos : Text)
    → is_empty (ext base) ≡ true
    → eq_text goos (codes "windows") ≡ false
    → snapshot_filename base true now goos ≡ strip_timestamp base ++ (b'_' ∷ now)
unfolding snapshot_filename
snapshot_filename-bare base now goos q w =
    rw (is_empty-nil (ext base) q, w, trim_suffix-nil base) (append-nil _)

dot_exe-ext : ext (codes ".exe") ≡ codes ".exe"
unfolding ext
dot_exe-ext = refl

snapshot_filename-stem :
    (base now goos : Text)
    → snapshot_filename base true now goos
      ≡ (stem base ++ (b'_' ∷ now)) ++ suffix_for goos (ext base)
unfolding snapshot_filename
snapshot_filename-stem base now goos = refl

-- A second time stamp takes the place of the first, where an extension stands behind it.
snapshot_filename-suffix :
    (base t u goos : Text)
    → IsStamp t
    → ext (suffix_for goos (ext base)) ≡ suffix_for goos (ext base)
    → is_empty (suffix_for goos (ext base)) ≡ false
    → snapshot_filename (snapshot_filename base true t goos) true u goos
      ≡ snapshot_filename base true u goos
snapshot_filename-suffix base t u goos h s n =
    ap (λ b. snapshot_filename b true u goos) (snapshot_filename-stem base t goos)
    ∙ snapshot_filename-behind (stem base) t u (suffix_for goos (ext base)) goos h s n
    ∙ sym (snapshot_filename-stem base u goos)

snapshot_filename-none :
    (base t u goos : Text)
    → IsStamp t
    → is_empty (ext base) ≡ true
    → eq_text goos (codes "windows") ≡ false
    → snapshot_filename (snapshot_filename base true t goos) true u goos
      ≡ snapshot_filename base true u goos
snapshot_filename-none base t u goos h q w =
    let x = strip_timestamp base in
    let e : is_empty (ext (x ++ (b'_' ∷ t))) ≡ true =
      ext-append x (b'_' ∷ t) (stamp-is_plain t h) ∙ strip_timestamp-ext base ∙ q in
    ap (λ b. snapshot_filename b true u goos) (snapshot_filename-bare base t goos q w)
    ∙ snapshot_filename-bare (x ++ (b'_' ∷ t)) u goos e w
    ∙ ap (λ s. s ++ (b'_' ∷ u)) (strip_timestamp-append x t h)
    ∙ sym (snapshot_filename-bare base u goos q w)

-- A name that `snapshotFilename` gave with a time stamp of 14 digits, given to it again with
-- another time stamp, becomes the name that the first base would get with that time stamp, on every
-- system.
pub snapshot_filename-snapshot_filename :
    (base t u goos : Text)
    → IsStamp t
    → snapshot_filename (snapshot_filename base true t goos) true u goos
      ≡ snapshot_filename base true u goos
snapshot_filename-snapshot_filename base t u goos h = elim (Bool-cases (is_empty (ext base))) [
  | inr q ↦ snapshot_filename-suffix base t u goos h (rw q (ext-ext base)) (rw q q)
  | inl q ↦ elim (Bool-cases (eq_text goos (codes "windows"))) [
    | inl w ↦ snapshot_filename-suffix base t u goos h (rw (q, w) dot_exe-ext) (rw (q, w) refl)
    | inr w ↦ snapshot_filename-none base t u goos h q w
  ]
]
