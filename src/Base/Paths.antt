-- ===== src/Base/Paths.antt =====
-- The lexical functions of Go's package path (and of path/filepath on Unix, where they agree) that
-- the program uses. It models no code of its own.
use Prim.Native.Nat.{ℕ}
use mathlib.Core.Path.{◌≡◌, refl, ap, ◌∙◌}
use mathlib.Core.Bool.{Bool, true, false}
use mathlib.Core.List.{List, [], ◌∷◌, ◌++◌, reverse}
use sfync.Base.Compare.{if◌then◌else◌, ◌==◌, nat_eq, text_eq}
use sfync.Base.Strings.{Text, codes, has_prefix}

abbrev slash : ℕ
slash = b'/'

-- The first element of a path, and whether a slash and what comes behind it follow.
abbrev pub put_first : ℕ → List Text → List Text
put_first c [] = (c ∷ []) ∷ []
put_first c (e ∷ es) = (c ∷ e) ∷ es

-- The elements of a path, the empty ones too.
unfoldable pub split : Text → List Text
split [] = [] ∷ []
split (c ∷ p) = let rest = split p in if c == slash then [] ∷ rest else put_first c rest

-- The elements put together, a slash between any two.
unfoldable pub glue : List Text → Text
glue [] = []
glue (e ∷ []) = e
glue (e ∷ f ∷ es) = e ++ slash ∷ glue (f ∷ es)

abbrev dot : Text
dot = codes "."

abbrev dot_dot : Text
dot_dot = codes ".."

-- `..` behind the elements kept so far, the last of them first.
unfoldable pub go_up : Bool → List Text → List Text
go_up rooted [] = if rooted then [] else dot_dot ∷ []
go_up rooted (e ∷ es) = if e == dot_dot then dot_dot ∷ e ∷ es else es

-- One element behind those kept so far.
unfoldable pub keep_element : Bool → List Text → Text → List Text
unfolding go_up
keep_element rooted kept e =
    if e == []
    then kept
    else if e == dot
    then kept
    else if e == dot_dot
    then go_up rooted kept
    else e ∷ kept

unfoldable pub clean_elements : Bool → List Text → List Text → List Text
unfolding keep_element
clean_elements rooted kept [] = reverse kept
clean_elements rooted kept (e ∷ es) = clean_elements rooted (keep_element rooted kept e) es

abbrev or_dot : Text → Text
or_dot [] = dot
or_dot (c ∷ p) = c ∷ p

unfoldable pub is_rooted : Text → Bool
unfolding has_prefix
is_rooted p = has_prefix p (slash ∷ [])

-- `path.Clean`
unfoldable pub clean : Text → Text
unfolding split glue clean_elements is_rooted
clean p =
    if is_rooted p
    then slash ∷ glue (clean_elements true [] (split p))
    else or_dot (glue (clean_elements false [] (split p)))

-- The elements that are not empty.
unfoldable pub nonempty : List Text → List Text
nonempty [] = []
nonempty ([] ∷ es) = nonempty es
nonempty ((c ∷ e) ∷ es) = (c ∷ e) ∷ nonempty es

abbrev join_all : List Text → Text
join_all [] = []
join_all (e ∷ es) = clean (glue (e ∷ es))

-- `path.Join`
unfoldable pub join : List Text → Text
unfolding clean nonempty
join es = join_all (nonempty es)

-- What stands up to the last slash, with it, and what stands behind it: `path.Split`.
abbrev put_split : ℕ → Text × Text → Text × Text
put_split c ([], file) = if c == slash then (c ∷ [], file) else ([], c ∷ file)
put_split c (d ∷ dir, file) = (c ∷ d ∷ dir, file)

unfoldable pub split_last : Text → Text × Text
split_last [] = ([], [])
split_last (c ∷ p) = put_split c (split_last p)

put_split-append :
    (c : ℕ) (r : Text × Text) → (put_split c r).0 ++ (put_split c r).1 ≡ c ∷ (r.0 ++ r.1)
put_split-append c ([], file) =
    elim (c == slash)
      as (λ b.
        let r : Text × Text = if b then (c ∷ [], file) else ([], c ∷ file) in
        r.0 ++ r.1 ≡ c ∷ file) [ true ↦ refl | false ↦ refl ]
put_split-append c (d ∷ dir, file) = refl

-- The two parts of a path put together.
pub split_last-append : (p : Text) → (split_last p).0 ++ (split_last p).1 ≡ p
unfolding split_last
split_last-append [] = refl
split_last-append (c ∷ p) =
    put_split-append c (split_last p) ∙ ap (λ q. c ∷ q) (split_last-append p)

-- `path.Dir`
unfoldable pub dir : Text → Text
unfolding clean split_last
dir p = clean (split_last p).0

abbrev strip : Text → Text
strip [] = []
strip (c ∷ p) = let rest = strip p in if c == slash then rest else c ∷ p

-- `path.Base` of a path whose slashes at the end are gone, the path backwards.
abbrev last_element : Text → Text
last_element [] = slash ∷ []
last_element (c ∷ q) = (split_last (reverse (c ∷ q))).1

unfoldable pub base : Text → Text
unfolding split_last
base [] = dot
base (c ∷ p) = last_element (strip (reverse (c ∷ p)))

clean_test : clean (codes "a//./b/../c/") ≡ codes "a/c"
unfolding clean text_eq nat_eq
clean_test = refl

clean_rooted_test : clean (codes "/../x/./y//") ≡ codes "/x/y"
unfolding clean text_eq nat_eq
clean_rooted_test = refl

clean_up_test : clean (codes "../../a/..") ≡ codes "../.."
unfolding clean text_eq nat_eq
clean_up_test = refl

join_test : join (codes "/www/" ∷ codes "" ∷ codes "a/b" ∷ []) ≡ codes "/www/a/b"
unfolding join text_eq nat_eq
join_test = refl

dir-base_test : (dir (codes "/www/a/b") ≡ codes "/www/a") × (base (codes "/www/a/b//") ≡ codes "b")
unfolding dir base text_eq nat_eq
dir-base_test = (refl, refl)
