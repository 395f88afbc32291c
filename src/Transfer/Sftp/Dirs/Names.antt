-- ===== src/Transfer/Sftp/Dirs/Names.antt =====
-- internal/transfer/sftp.go, `MkdirAll`: which paths its loop looks at.
use sfync.Base.{◌≡◌, ◌≢◌, refl, ap, ◌∙◌, Text, codes, List, [], ◌∷◌, ◌++◌, Bool, true, false}
use sfync.Base.{All, if◌then◌else◌, ◌==◌, nat_eq, text_eq, arith, length, length-append}
use sfync.Base.Paths.{split}
use sfync.Transfer.Sftp.Dirs.{join_component}

-- The paths that the loop looks at.
unfoldable pub ancestors : List Text → Text → List Text
unfolding join_component
ancestors [] current = []
ancestors ([] ∷ rest) current = ancestors rest (codes "/")
ancestors ((c ∷ cs) ∷ rest) current =
    let next = join_component current (c ∷ cs) in next ∷ ancestors rest next

-- A name is not empty and has no slash.
abbrev pub IsName : Text → Type 0
IsName name = (name ≢ []) × All (λ c. c ≢ b'/') name

-- The path of names from the root.
abbrev pub path_of : List Text → Text
path_of [] = []
path_of (name ∷ names) = b'/' ∷ name ++ path_of names

-- From a path on, the paths that lead to one by names: "/a", "/a/b" and "/a/b/c" for a, b and c.
abbrev pub leading : Text → List Text → List Text
leading at [] = []
leading at (name ∷ names) = let below = at ++ b'/' ∷ name in below ∷ leading below names

split-name :
    (name q : Text) (rest : List Text)
    → All (λ c. c ≢ b'/') name
    → split q ≡ [] ∷ rest
    → split (name ++ q) ≡ name ∷ rest
unfolding split
split-name [] q rest h e = e
split-name (x ∷ name) q rest (now, h) e = let ih = split-name name q rest h e in ground arith

split-path_of : (names : List Text) → All IsName names → split (path_of names) ≡ [] ∷ names
unfolding split nat_eq
split-path_of [] h = refl
split-path_of (name ∷ names) (now, h) =
    let ih = split-name name (path_of names) names now.1 (split-path_of names h) in
    ap (λ l. [] ∷ l) ih

deeper : (at name : Text) → name ≢ [] → at ++ b'/' ∷ name ≢ codes "/"
deeper at [] h e = h refl
deeper at (x ∷ name) h e = omega (arith, ap (λ l. length l) e, length-append at (b'/' ∷ x ∷ name))

ancestors-leading :
    (at : Text) (names : List Text)
    → at ≢ codes "/"
    → All IsName names
    → ancestors names at ≡ leading at names
unfolding ancestors join_component
ancestors-leading at [] ne h = refl
ancestors-leading at ([] ∷ names) ne (now, h) = absurd (now.0 refl)
ancestors-leading at ((c ∷ cs) ∷ names) ne (now, h) =
    step (at == codes "/") refl
      (ancestors-leading (at ++ b'/' ∷ c ∷ cs) names (deeper at (c ∷ cs) now.0) h)
  where
    step :
        (b : Bool)
        → (at == codes "/") ≡ b
        → ancestors names (at ++ b'/' ∷ c ∷ cs) ≡ leading (at ++ b'/' ∷ c ∷ cs) names
        → (let next = if b then b'/' ∷ c ∷ cs else at ++ b'/' ∷ c ∷ cs in
            next ∷ ancestors names next)
          ≡ leading at ((c ∷ cs) ∷ names)
    step true e ih = absurd (ne (ground arith))
    step false e ih = ap (λ l. (at ++ b'/' ∷ c ∷ cs) ∷ l) ih

from_root : (names : List Text) → All IsName names → ancestors names (codes "/") ≡ leading [] names
unfolding ancestors join_component text_eq nat_eq
from_root [] h = refl
from_root ([] ∷ names) (now, h) = absurd (now.0 refl)
from_root ((c ∷ cs) ∷ names) (now, h) =
    ap (λ l. (b'/' ∷ c ∷ cs) ∷ l)
      (ancestors-leading (b'/' ∷ c ∷ cs) names (deeper [] (c ∷ cs) now.0) h)

pub ancestors-path_of :
    (names : List Text) → All IsName names → ancestors (split (path_of names)) [] ≡ leading [] names
unfolding ancestors
ancestors-path_of names h = ap (λ l. ancestors l []) (split-path_of names h) ∙ from_root names h
