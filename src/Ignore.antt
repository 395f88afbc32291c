-- ===== src/Ignore.antt =====
-- internal/syncignore: the patterns of a .syncignore file, and which paths they match. The matcher
-- of package doublestar is an argument. The bytes of the file are those that `bufio.Scanner` cuts
-- into lines; a line longer than its buffer is an error of the file, as any other.
pub mod Patterns
pub mod Tests
use mathlib.Core.List.{reverse}
use sfync.Base.{ℕ, Text, codes, Option, none, some, List, [], ◌∷◌, ◌++◌, Bool, true, false}
use sfync.Base.{◌&&◌, ◌||◌, not, if◌then◌else◌, ◌==◌, nat_eq, contains, has_prefix, has_suffix}

-- A byte before the first line of a text that is cut into lines.
abbrev put_line : ℕ → List Text → List Text
put_line c [] = (c ∷ []) ∷ []
put_line c (l ∷ ls) = (c ∷ l) ∷ ls

-- `bufio.ScanLines`; a carriage return at the end of a line goes with the spaces there.
unfoldable pub lines : Text → List Text
lines [] = []
lines (c ∷ s) = let rest = lines s in if c == 10 then [] ∷ rest else put_line c rest

-- The ASCII part of `unicode.IsSpace`.
unfoldable pub is_space : ℕ → Bool
is_space c = c == 32 || (c == 9 || (c == 10 || (c == 11 || (c == 12 || c == 13))))

abbrev trim_left : Text → Text
trim_left [] = []
trim_left (c ∷ s) = let rest = trim_left s in if is_space c then rest else c ∷ s

-- `strings.TrimSpace` on ASCII.
unfoldable pub trim_space : Text → Text
unfolding is_space
trim_space s = reverse (trim_left (reverse (trim_left s)))

-- The tests on a line of the file that is trimmed.
unfoldable pub is_pattern : Text → Bool
unfolding has_prefix contains
is_pattern [] = false
is_pattern (c ∷ s) = not (has_prefix (c ∷ s) (codes "#")) && not (contains (c ∷ s) (codes "***"))

abbrev keep_line : Text → List Text → List Text
keep_line l ps = if is_pattern l then l ∷ ps else ps

-- The loop of `Load` over the lines.
unfoldable pub read_patterns : List Text → List Text
unfolding is_pattern trim_space
read_patterns [] = []
read_patterns (l ∷ ls) = keep_line (trim_space l) (read_patterns ls)

abbrev pub own_name : Text
own_name = codes ".syncignore"

pub data IgnoreFile : Type 0 where
  missing unreadable : IgnoreFile
  bytes : Text → IgnoreFile

-- `Load`; none where it returns an error.
unfoldable pub load : IgnoreFile → Option (List Text)
unfolding read_patterns lines
load missing = some []
load unreadable = none
load (bytes s) = some (read_patterns (lines s) ++ own_name ∷ [])

-- `pattern[:len(pattern)-1]` of a pattern that ends in a slash.
abbrev pub drop_last : Text → Text
drop_last [] = []
drop_last (c ∷ []) = []
drop_last (c ∷ d ∷ s) = c ∷ drop_last (d ∷ s)

abbrev pub drop_first : Text → Text
drop_first [] = []
drop_first (c ∷ s) = s

-- `doublestar.Match(p, path)`, false on an error.
abbrev pub Matcher : Type 0
Matcher = Text → Text → Bool

module _ (glob : Matcher) where
  -- The two ways in which `matchPattern` tries a pattern without its outer slashes.
  unfoldable pub try_anchored : Bool → Text → Text → Bool
  try_anchored is_dir p path = glob p path || (is_dir && glob (p ++ codes "/**") path)

  unfoldable pub try_anywhere : Bool → Text → Text → Bool
  try_anywhere is_dir p path =
      glob p path
      || (glob (codes "**/" ++ p) path
          || (is_dir
              && (glob (p ++ codes "/**") path || glob (codes "**/" ++ (p ++ codes "/**")) path)))

  unfoldable pub match_pattern : Text → Text → Bool
  unfolding try_anchored try_anywhere has_prefix has_suffix
  match_pattern pattern path =
      let is_dir = has_suffix pattern (codes "/") in
      let body : Text = if is_dir then drop_last pattern else pattern in
      let is_rooted = has_prefix body (codes "/") in
      let bare : Text = if is_rooted then drop_first body else body in
      if is_rooted || has_prefix bare (codes "**/")
      then try_anchored is_dir bare path
      else try_anywhere is_dir bare path

  unfoldable pub should_ignore : List Text → Text → Bool
  unfolding match_pattern
  should_ignore [] path = false
  should_ignore (p ∷ ps) path = match_pattern p path || should_ignore ps path
