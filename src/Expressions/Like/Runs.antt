-- ===== src/Expressions/Like/Runs.antt =====
-- LIKE on concrete patterns.
use sqlite_mem.Prelude.{
  codes, ascii_lower, text_eq, true, false, none, some, [], ◌∷◌, ◌++◌, ◌≡◌, refl,
}
use sqlite_mem.Errors.{ok}
use sqlite_mem.Expressions.Like.{like_match}
use sqlite_mem.Expressions.Like.Matching.{
  single, underscores, starts_with, like_match_literal, like_match_prefix, like_match-underscores,
}
use sqlite_mem.Expressions.Like.Escaping.{escaped, like_match-escaped}

both_wildcards : like_match (codes "Hello") (codes "%E_l%") none false ≡ ok true
unfolding like_match text_eq
both_wildcards = refl

like_match_literal_example :
    like_match (codes "ABc") (codes "abC") none false
    ≡ ok (text_eq (ascii_lower (codes "ABc")) (ascii_lower (codes "abC")))
like_match_literal_example =
    like_match_literal (codes "ABc") (codes "abC")
      ((refl, refl, refl), ((refl, refl, refl), ((refl, refl, refl), tt)))

like_match_prefix_example :
    like_match (codes "ABc") (codes "ab" ++ b'%' ∷ []) none false
    ≡ ok (starts_with (ascii_lower (codes "ABc")) (ascii_lower (codes "ab")))
like_match_prefix_example =
    like_match_prefix (codes "ABc") (codes "ab") ((refl, refl, refl), ((refl, refl, refl), tt))

like_match-escaped_example :
    like_match (codes "5%") (escaped b'!' (codes "5%")) (some (single b'!')) true
    ≡ ok (text_eq (codes "5%") (codes "5%"))
like_match-escaped_example =
    like_match-escaped (codes "5%") (codes "5%") b'!' refl (refl, (refl, tt))

-- One character, of two units.
like_match-underscores_example :
    like_match (0xd83d ∷ 0xde00 ∷ []) (underscores 1) none false ≡ ok false
like_match-underscores_example = like_match-underscores (0xd83d ∷ 0xde00 ∷ []) 1 false
