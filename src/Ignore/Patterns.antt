-- ===== src/Ignore/Patterns.antt =====
-- What the patterns of internal/syncignore match.
use mathlib.Core.List.{reverse-append}
use sfync.Base.{ℕ, ◌≡◌, refl, Text, codes, some, List, [], ◌∷◌, ◌++◌, Bool, true, false}
use sfync.Base.{◌||◌, if◌then◌else◌, arith, has_suffix, has_prefix, nat_eq}
use sfync.Ignore.{
  lines, read_patterns, load, bytes, own_name, Matcher, should_ignore, match_pattern,
}
use sfync.Ignore.{try_anchored, try_anywhere, drop_last, drop_first}

should_ignore_last :
    (glob : Matcher) (ps : List Text) (p path : Text)
    → match_pattern glob p path ≡ true
    → should_ignore glob (ps ++ p ∷ []) path ≡ true
unfolding should_ignore
should_ignore_last glob [] p path h = ground arith
should_ignore_last glob (q ∷ ps) p path h = ground (arith, should_ignore_last glob ps p path h)

own_name_matches :
    (glob : Matcher) → glob own_name own_name ≡ true → match_pattern glob own_name own_name ≡ true
unfolding match_pattern nat_eq
own_name_matches glob h = rw h

-- The ignore file itself is ignored whenever there is one that can be read, whatever it says, if
-- the matcher matches a name without wildcards with itself.
pub should_ignore-own_name :
    (glob : Matcher) (s : Text) (ps : List Text)
    → glob own_name own_name ≡ true
    → load (bytes s) ≡ some ps
    → should_ignore glob ps own_name ≡ true
unfolding load
should_ignore-own_name glob s ps h e =
    let last =
      should_ignore_last glob (read_patterns (lines s)) own_name own_name
        (own_name_matches glob h) in
    ground (arith, last)

drop_last-append : (p : Text) (c : ℕ) → drop_last (p ++ c ∷ []) ≡ p
drop_last-append [] c = refl
drop_last-append (d ∷ []) c = refl
drop_last-append (d ∷ e ∷ p) c = ground (arith, drop_last-append (e ∷ p) c)

has_suffix-slash : (p : Text) → has_suffix (p ++ codes "/") (codes "/") ≡ true
unfolding has_suffix nat_eq
has_suffix-slash p = rw (reverse-append p (codes "/"))

try_widens :
    (glob : Matcher) (p path : Text)
    → (try_anchored glob false p path ≡ true → try_anchored glob true p path ≡ true)
      × (try_anywhere glob false p path ≡ true → try_anywhere glob true p path ≡ true)
unfolding try_anchored try_anywhere
try_widens glob p path = (λ h. ground arith, λ h. ground arith)

-- What `matchPattern` tries, once it has looked at the slash at the end.
abbrev tries : Matcher → Bool → Text → Text → Bool
tries glob is_dir body path =
    let is_rooted = has_prefix body (codes "/") in
    let bare : Text = if is_rooted then drop_first body else body in
    if is_rooted || has_prefix bare (codes "**/")
    then try_anchored glob is_dir bare path
    else try_anywhere glob is_dir bare path

tries_widens :
    (glob : Matcher) (body path : Text)
    → tries glob false body path ≡ true
    → tries glob true body path ≡ true
tries_widens glob body path e = split (has_prefix body (codes "/")) e
  where
    split :
        (r : Bool)
        → (if r || has_prefix (if r then drop_first body else body) (codes "**/")
            then try_anchored glob false (if r then drop_first body else body) path
            else try_anywhere glob false (if r then drop_first body else body) path)
          ≡ true
        → (if r || has_prefix (if r then drop_first body else body) (codes "**/")
            then try_anchored glob true (if r then drop_first body else body) path
            else try_anywhere glob true (if r then drop_first body else body) path)
          ≡ true
    split true h = (try_widens glob (drop_first body) path).0 h
    split false h = let w = try_widens glob body path in ground (arith, w.0, w.1)

match_pattern-tries :
    (glob : Matcher) (p path : Text)
    → match_pattern glob p path
      ≡ tries glob
          (has_suffix p (codes "/"))
          (if has_suffix p (codes "/") then drop_last p else p)
          path
unfolding match_pattern
match_pattern-tries glob p path = refl

-- A slash behind a pattern that ends in none takes nothing away: the pattern still matches what
-- it matched, files too.
match_pattern-slash :
    (glob : Matcher) (p path : Text)
    → has_suffix p (codes "/") ≡ false
    → match_pattern glob p path ≡ true
    → match_pattern glob (p ++ codes "/") path ≡ true
match_pattern-slash glob p path h e =
    rw (match_pattern-tries glob (p ++ codes "/") path, has_suffix-slash p, drop_last-append p b'/')
      (tries_widens glob p path (rw (match_pattern-tries glob p path, h) at e))
