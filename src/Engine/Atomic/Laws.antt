-- ===== src/Engine/Atomic/Laws.antt =====
-- engine/persist.go: `writeImageAtomic` with faults.
use execdb.Prelude.{
  ℕ, Bool, true, false, Option, none, some, if◌then◌else◌, Text, Bytes, take, eq_text, eq_text_iff,
  eq_text_refl, ◌≡◌, ◌≢◌, ◌⊎◌, inl, inr, refl, sym, ap, ◌∙◌, arith, Bool-cases,
}
use execdb.Engine.Errors.{Result, ok, err, os_error}
use execdb.Engine.Files.{File, Files, put, put_file, rename}
use execdb.Engine.Footer.{image_of}
use execdb.Engine.Atomic.{Faults, cleanup, publish, write_image_atomic}

-- What a write that returned `out` did to the file at `q`.
abbrev pub IsAtomicAt :
    Files → Text → Text → File → Bool → Text → Result (Unit {0}) × Files → Type 0
IsAtomicAt fs path tmp new remove_fails q out =
    (out.0 ≡ ok tt)
      × (out.1 q ≡ (if eq_text tmp q then none else if eq_text path q then some new else fs q))
    ⊎ (out.0 ≡ err os_error) × ((out.1 q ≡ fs q) ⊎ ((remove_fails ≡ true) × (tmp ≡ q)))

module _ (fs : Files) (path tmp : Text) (ne : tmp ≢ path) (fresh : fs tmp ≡ none) (q : Text) where
  abandoned :
      (content : Bytes) (mode : ℕ) (new : File) (remove_fails : Bool)
      → IsAtomicAt fs path tmp new remove_fails q
          (err os_error, cleanup (put_file fs tmp content mode) tmp remove_fails)
  unfolding put
  abandoned content mode new true = elim (Bool-cases (eq_text tmp q)) [
    | inl e ↦ inr (refl, inr (refl, (eq_text_iff tmp q).0 e))
    | inr e ↦ inr (refl, inl (rw e))
  ]
  abandoned content mode new false = elim (Bool-cases (eq_text tmp q)) [
    | inl e ↦ inr (refl, inl (rw e (sym fresh ∙ ap fs ((eq_text_iff tmp q).0 e))))
    | inr e ↦ inr (refl, inl (rw e))
  ]

  renamed :
      (content : Bytes) (mode : ℕ) (remove_fails : Bool)
      → IsAtomicAt fs path tmp
          (record { content = content; mode = mode })
          remove_fails
          q
          (ok tt, cleanup (rename (put_file fs tmp content mode) tmp path) tmp remove_fails)
  unfolding put
  renamed content mode remove_fails = inl (refl, ground (arith, eq_text_refl tmp))

  publish-IsAtomic :
      (image : Bytes) (mode : ℕ) (f : Faults)
      → IsAtomicAt fs path tmp
          (record { content = image; mode = mode })
          f.remove
          q
          (publish fs path tmp image mode f)
  unfolding publish
  publish-IsAtomic image mode f = at f.chmod f.close f.rename
    where
      new : File
      new = record { content = image; mode = mode }

      at :
          (chmod close rename_fails : Bool)
          → IsAtomicAt fs path tmp new f.remove q (
              publish fs path tmp image mode
                (record f { chmod = chmod; close = close; rename = rename_fails }))
      at true c r = abandoned image 384 new f.remove
      at false true r = abandoned image mode new f.remove
      at false false true = abandoned image mode new f.remove
      at false false false = renamed image mode f.remove

  -- Where `tmp` is a new file and not the target, then whichever calls fail, and wherever a write
  -- stops, for every path: either `writeImageAtomic` succeeds, the target holds the whole image
  -- with its mode, the temporary file is gone and the rest is as it was; or it fails and every file
  -- is as it was, but for a temporary file whose removal failed.
  pub write_image_atomic-is_atomic :
      (engine_bytes blob : Bytes) (mode : ℕ) (f : Faults)
      → IsAtomicAt fs path tmp
          (record { content = image_of engine_bytes blob; mode = mode })
          f.remove
          q
          (write_image_atomic fs path tmp engine_bytes blob mode f)
  unfolding write_image_atomic
  write_image_atomic-is_atomic engine_bytes blob mode f = at f.create f.write
    where
      new : File
      new = record { content = image_of engine_bytes blob; mode = mode }

      at :
          (create : Bool) (write : Option ℕ)
          → IsAtomicAt fs path tmp new f.remove q (
              write_image_atomic fs path tmp engine_bytes blob mode
                (record f { create = create; write = write }))
      at true w = inr (refl, inl refl)
      at false none =
          publish-IsAtomic (image_of engine_bytes blob) mode
            (record f { create = false; write = none })
      at false (some n) = abandoned (take n (image_of engine_bytes blob)) 384 new f.remove

-- With no call failing, `writeImageAtomic` succeeds.
pub write_image_atomic-ok :
    (fs : Files) (path tmp : Text) (engine_bytes blob : Bytes) (mode : ℕ) (f : Faults)
    → f.create ≡ false
    → f.write ≡ none
    → f.chmod ≡ false
    → f.close ≡ false
    → f.rename ≡ false
    → (write_image_atomic fs path tmp engine_bytes blob mode f).0 ≡ ok tt
unfolding write_image_atomic
write_image_atomic-ok fs path tmp engine_bytes blob mode f a b c d e = rw (a, b, c, d, e)

-- A write that succeeds leaves the whole image at the target.
pub write_image_atomic-target :
    (fs : Files) (path tmp : Text) (engine_bytes blob : Bytes) (mode : ℕ) (f : Faults)
    → tmp ≢ path
    → fs tmp ≡ none
    → (write_image_atomic fs path tmp engine_bytes blob mode f).0 ≡ ok tt
    → (write_image_atomic fs path tmp engine_bytes blob mode f).1 path
      ≡ some (record { content = image_of engine_bytes blob; mode = mode })
write_image_atomic-target fs path tmp engine_bytes blob mode f ne fresh h =
    elim (write_image_atomic-is_atomic fs path tmp ne fresh path engine_bytes blob mode f) [
      | inl (_, e) ↦ e ∙ ground (arith, eq_text_iff tmp path, eq_text_refl path)
      | inr (failed, _) ↦ cc (h, failed)
    ]
