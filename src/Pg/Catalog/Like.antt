-- ===== src/Pg/Catalog/Like.antt =====
-- cmd/execdb/pgcatalog.go: the patterns of `pg_attribute` as searches for a word.
use execdb.Prelude.{
  ℕ, true, [], ◌∷◌, ◌++◌, map, Text, not, ◌&&◌, to_upper, has_prefix, contains, ◌==◌, ◌≡◌, refl,
  arith, Bool,
}
use execdb.Pg.Catalog.{like}

-- Letters that stand for themselves in a pattern, and are of upper case.
unfoldable pub is_word : Text → Bool
unfolding to_upper
is_word [] = true
is_word (c ∷ s) = to_upper c == c && not (c == b'%') && not (c == b'_') && is_word s

to_upper-to_upper : (c : ℕ) → to_upper (to_upper c) ≡ to_upper c
unfolding to_upper
to_upper-to_upper c = ground arith

like_any : (s : Text) → like (b'%' ∷ []) s ≡ true
unfolding like
like_any [] = refl
like_any (c ∷ s) = like_any s

like-has_prefix :
    (word s : Text)
    → is_word word ≡ true
    → like (word ++ (b'%' ∷ [])) (map to_upper s) ≡ has_prefix (map to_upper s) word
unfolding like has_prefix is_word
like-has_prefix [] [] h = refl
like-has_prefix [] (c ∷ s) h = like_any (map to_upper (c ∷ s))
like-has_prefix (x ∷ word) [] h = ground (arith, h)
like-has_prefix (x ∷ word) (c ∷ s) h =
    ground (arith, h, to_upper-to_upper c, like-has_prefix word s)

-- `%WORD%` matches the texts of upper case that contain the word.
pub like-contains :
    (word s : Text)
    → is_word word ≡ true
    → like (b'%' ∷ (word ++ (b'%' ∷ []))) (map to_upper s) ≡ contains (map to_upper s) word
unfolding like contains
like-contains word [] h = like-has_prefix word [] h
like-contains word (c ∷ s) h =
    ground (arith, like-has_prefix word (c ∷ s) h, like-contains word s h)
