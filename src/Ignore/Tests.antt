-- ===== src/Ignore/Tests.antt =====
-- Runs of internal/syncignore, with a matcher that knows whole names only.
use sfync.Base.{
  ◌≡◌, refl, Text, codes, some, [], ◌∷◌, ◌++◌, Bool, true, false, ◌==◌, nat_eq, text_eq,
}
use sfync.Ignore.{load, bytes, own_name, should_ignore, match_pattern}
use sfync.Ignore.Patterns.{should_ignore-own_name}

whole : Text → Text → Bool
whole p path = p == path

abbrev text : Text
text = codes "# build" ++ 10 ∷ codes "  dist/ " ++ 10 ∷ 10 ∷ codes "a***b" ++ 10 ∷ codes "/x"

load_test : load (bytes text) ≡ some (codes "dist/" ∷ codes "/x" ∷ own_name ∷ [])
unfolding load nat_eq
load_test = refl

anchored_test :
    (match_pattern whole (codes "/x") (codes "x") ≡ true)
    × (match_pattern whole (codes "/x") (codes "a/x") ≡ false)
unfolding match_pattern whole nat_eq text_eq
anchored_test = (refl, refl)

should_ignore-own_name_example :
    should_ignore whole (codes "dist/" ∷ codes "/x" ∷ own_name ∷ []) own_name ≡ true
unfolding whole text_eq nat_eq
should_ignore-own_name_example =
    should_ignore-own_name whole text (codes "dist/" ∷ codes "/x" ∷ own_name ∷ []) refl load_test
