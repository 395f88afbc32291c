-- ===== src/Transfer/Mirror/Scan/Fuel.antt =====
-- internal/transfer/mirror.go, `walkRemote`: how much fuel is enough for the serial walk.
use sfync.Base.{ℕ, zero, suc, ◌<◌, ◌≤◌, ◌≡◌, refl, Text, codes, Option, none, some, List, [], ◌∷◌}
use sfync.Base.{◌++◌, true, is_some, All, All-map, arith}
use sfync.Base.Dict.{Dict, insert}
use sfync.Base.{text_eq}
use sfync.Ignore.{Matcher}
use sfync.Transfer.Types.{RemoteFileInfo}
use sfync.Transfer.Remote.{RemoteClient, Answer, ok, err}
use sfync.Transfer.Mirror.Scan.{note_items, relative, walk_dir, walk_each, go_on}

abbrev pub child : Text → Text → Text
child dir name = dir ++ (codes "/" ++ name)

-- The directories that an answer names lie less deep below the server's root than `n`.
abbrev pub Below : (Text → ℕ) → Text → ℕ → List RemoteFileInfo → Type 0
Below height dir n items = All (λ i. i.is_dir ≡ true → height (child dir i.name) < n) items

abbrev pub Listed : (Text → ℕ) → Text → Answer (List RemoteFileInfo) → Type 0
Listed height dir (err e) = Unit
Listed height dir (ok items) = Below height dir (height dir) items

-- The names of the subdirectories that the loop collects are of directories that were listed.
note_items-Below :
    (glob : Matcher) (patterns : List Text) (height : Text → ℕ) (dir rel_dir : Text) (n : ℕ)
    (items : List RemoteFileInfo) (entries : Dict Text RemoteFileInfo)
    → Below height dir n items
    → All (λ name. height (child dir name) < n) (note_items glob patterns rel_dir items entries).1
unfolding note_items
note_items-Below glob patterns height dir rel_dir n [] entries h = tt
note_items-Below glob patterns height dir rel_dir n (i ∷ items) entries (now, h) =
    let p = relative rel_dir i.name in
    let skipped = note_items-Below glob patterns height dir rel_dir n items entries h in
    let kept =
      note_items-Below glob patterns height dir rel_dir n items
        (insert p (record i { path = p }) entries) h in
    ground arith

-- What the server answers is no deeper than `height` says.
abbrev pub Heights : {W : Type 0} → RemoteClient W → (Text → ℕ) → Type 0
Heights {W = W} c height = (dir : Text) (w : W) → Listed height dir (c.read_dir dir w).0

is_some-then :
    {A B : Type 0} (o : Option A) (next : A → Option B)
    → is_some o ≡ true
    → ((a : A) → is_some (next a) ≡ true)
    → is_some (elim o [ none ↦ none | some a ↦ next a ]) ≡ true
is_some-then none next h k = h
is_some-then (some a) next h k = k a

module _ {W : Type 0} (glob : Matcher) (patterns : List Text) (c : RemoteClient W)
    (height : Text → ℕ) where
  walk_each-returns :
      (fuel : ℕ)
      → ((dir rel_dir : Text) (entries : Dict Text RemoteFileInfo) (w : W)
          → height dir < fuel
          → is_some (walk_dir glob patterns c fuel dir rel_dir entries w) ≡ true)
      → (dir rel_dir : Text) (names : List Text) (entries : Dict Text RemoteFileInfo) (w : W)
      → All (λ name. height (child dir name) < fuel) names
      → is_some
          (walk_each glob patterns c (walk_dir glob patterns c fuel) dir rel_dir names entries w)
        ≡ true
  unfolding walk_each
  walk_each-returns fuel ih dir rel_dir [] entries w h = refl
  walk_each-returns fuel ih dir rel_dir (name ∷ names) entries w (now, h) =
      is_some-then
        (walk_dir glob patterns c fuel (child dir name) (relative rel_dir name) entries w)
        (λ found.
          walk_each glob patterns c (walk_dir glob patterns c fuel) dir rel_dir names found.0
            found.1)
        (ih (child dir name) (relative rel_dir name) entries w now)
        (λ found. walk_each-returns fuel ih dir rel_dir names found.0 found.1 h)

  -- All directories numbered less than the fuel are walked.
  abbrev pub Returns : ℕ → Type 0
  Returns fuel =
      (dir rel_dir : Text) (entries : Dict Text RemoteFileInfo) (w : W)
      → height dir < fuel
      → is_some (walk_dir glob patterns c fuel dir rel_dir entries w) ≡ true

  go_on-Returns :
      (fuel : ℕ)
      → Returns fuel
      → (dir rel_dir : Text) (entries : Dict Text RemoteFileInfo)
        (answer : Answer (List RemoteFileInfo) × W)
      → height dir ≤ fuel
      → Listed height dir answer.0
      → is_some (go_on glob patterns c (walk_dir glob patterns c fuel) dir rel_dir entries answer)
        ≡ true
  go_on-Returns fuel ih dir rel_dir entries (err e, w) h _ = refl
  go_on-Returns fuel ih dir rel_dir entries (ok items, w) h below =
      let (entries', subdirs) = note_items glob patterns rel_dir items entries in
      walk_each-returns fuel ih dir rel_dir subdirs entries' w (
        note_items-Below glob patterns height dir rel_dir fuel items entries
          (All-map items (λ i. λ less. λ is_folder. omega (arith, less is_folder)) below))

  pub walk_dir-Returns : Heights c height → (fuel : ℕ) → Returns fuel
  unfolding walk_dir
  walk_dir-Returns finite zero dir rel_dir entries w h = ground arith
  walk_dir-Returns finite (suc fuel) dir rel_dir entries w h =
      go_on-Returns fuel (walk_dir-Returns finite fuel) dir rel_dir entries (c.read_dir dir w)
        (omega arith) (finite dir w)
