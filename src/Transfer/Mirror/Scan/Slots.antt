-- ===== src/Transfer/Mirror/Scan/Slots.antt =====
-- internal/transfer/mirror.go, `walkRemote`: what one move of a goroutine does to the concurrent walk.
use sfync.Base.{ℕ, zero, suc, ◌+◌, ◌*◌, ◌<◌, ◌≤◌, ◌≡◌, refl, Text, Option, none, some, List, []}
use sfync.Base.{◌∷◌, ◌++◌, Bool, true, false, if◌then◌else◌, arith, text_eq}
use sfync.Base.Dict.{Dict, insert}
use sfync.Ignore.{Matcher}
use sfync.Transfer.Types.{RemoteFileInfo}
use sfync.Transfer.Remote.{RemoteClient, Answer, ok, err}
use sfync.Transfer.Mirror.Transfers.{or_else}
use sfync.Transfer.Mirror.Transfers.Progress.{sum_of, sum_of-append}
use sfync.Transfer.Mirror.Scan.{note_items, relative}
use sfync.Transfer.Mirror.Scan.Fuel.{child, Below, Listed, Heights}
use sfync.Transfer.Mirror.Scan.Remote.{
  Lister, spawned, listing, noting, Walk, spawn, move_on, advance, any_move, next,
}

-- How many directories the items of a directory stand for, with those below them.
abbrev pub below : (Text → ℕ) → Text → List RemoteFileInfo → ℕ
below size dir items = sum_of (λ i. if i.is_dir then suc (size (child dir i.name)) else 0) items

abbrev pub Fits : (Text → ℕ) → Text → Answer (List RemoteFileInfo) → Type 0
Fits size dir (err e) = Unit
Fits size dir (ok items) = below size dir items ≤ size dir

-- The number of directories below each one is bounded.
abbrev pub Sizes : {W : Type 0} → RemoteClient W → (Text → ℕ) → Type 0
Sizes {W = W} c size = (dir : Text) (w : W) → Fits size dir (c.read_dir dir w).0

below-All :
    (size : Text → ℕ) (dir : Text) (n : ℕ) (items : List RemoteFileInfo)
    → below size dir items ≤ n
    → Below size dir n items
below-All size dir n [] h = tt
below-All size dir n (i ∷ items) h =
    ((λ e. step i.is_dir h e), below-All size dir n items (omega arith))
  where
    step :
        (b : Bool)
        → (if b then suc (size (child dir i.name)) else 0) + below size dir items ≤ n
        → b ≡ true
        → size (child dir i.name) < n
    step true h e = omega arith
    step false h e = absurd (cc)

pub Sizes-Heights :
    {W : Type 0} (c : RemoteClient W) (size : Text → ℕ) → Sizes c size → Heights c size
Sizes-Heights c size fits dir w = step (c.read_dir dir w).0 (fits dir w)
  where
    step : (a : Answer (List RemoteFileInfo)) → Fits size dir a → Listed size dir a
    step (err e) h = tt
    step (ok items) h = below-All size dir (size dir) items h

module _ {W : Type 0} (glob : Matcher) (patterns : List Text) (c : RemoteClient W)
    (size : Text → ℕ) where
  abbrev spawning : Text → List Text → ℕ
  spawning dir names = sum_of (λ name. 3 + 3 * size (child dir name)) names

  note_items-below :
      (dir rel_dir : Text) (items : List RemoteFileInfo) (entries : Dict Text RemoteFileInfo)
      → spawning dir (note_items glob patterns rel_dir items entries).1 ≤ 3 * below size dir items
  unfolding note_items
  note_items-below dir rel_dir [] entries = omega arith
  note_items-below dir rel_dir (i ∷ items) entries =
      let p = relative rel_dir i.name in
      let skipped = note_items-below dir rel_dir items entries in
      let kept = note_items-below dir rel_dir items (insert p (record i { path = p }) entries) in
      ground arith

  -- How many moves are left of a goroutine and those that it starts.
  abbrev pub left : Lister → ℕ
  left (spawned dir rel_dir) = 3 + 3 * size dir
  left (listing dir rel_dir) = 2 + 3 * size dir
  left (noting dir rel_dir (err e)) = 1
  left (noting dir rel_dir (ok items)) = 1 + 3 * below size dir items

  -- The slots that are taken.
  abbrev pub takes : Lister → ℕ
  takes (spawned dir rel_dir) = 0
  takes (listing dir rel_dir) = 1
  takes (noting dir rel_dir answer) = 1

  spawn-left :
      (dir rel_dir : Text) (names : List Text)
      → sum_of left (spawn dir rel_dir names) ≡ spawning dir names
  unfolding spawn
  spawn-left dir rel_dir [] = refl
  spawn-left dir rel_dir (name ∷ names) = omega (arith, spawn-left dir rel_dir names)

  spawn-takes :
      (dir rel_dir : Text) (names : List Text) → sum_of takes (spawn dir rel_dir names) ≡ 0
  unfolding spawn
  spawn-takes dir rel_dir [] = refl
  spawn-takes dir rel_dir (name ∷ names) = omega (arith, spawn-takes dir rel_dir names)

  abbrev pub walk : List Lister → ℕ → Dict Text RemoteFileInfo → W → Walk W
  walk listers free entries w = record {
    listers = listers;
    free_slots = free;
    entries = entries;
    world = w;
  }

  -- A move brings the end nearer and keeps the number of slots.
  abbrev pub Moved : Walk W → Option (Walk W) → Type 0
  Moved s none = Unit
  Moved s (some s') =
      (sum_of left s'.listers < sum_of left s.listers)
      × (s'.free_slots + sum_of takes s'.listers ≡ s.free_slots + sum_of takes s.listers)

  or_else-Moved :
      (s : Walk W) (o other : Option (Walk W))
      → Moved s o
      → Moved s other
      → Moved s (or_else o other)
  or_else-Moved s none other h k = k
  or_else-Moved s (some _) other h k = h

  module _ (fits : Sizes c size) where
    answered-left :
        (dir rel_dir : Text) (a : Answer (List RemoteFileInfo))
        → Fits size dir a
        → left (noting dir rel_dir a) < 2 + 3 * size dir
    answered-left dir rel_dir (err e) h = omega arith
    answered-left dir rel_dir (ok items) h = omega arith

    move_on-Moved :
        (p : Lister) (others listers : List Lister) (free : ℕ) (entries : Dict Text RemoteFileInfo)
        (w : W)
        → ((f : Lister → ℕ) → sum_of f listers ≡ f p + sum_of f others)
        → Moved
            (walk listers free entries w)
            (move_on glob patterns c p others (walk listers free entries w))
    unfolding move_on
    move_on-Moved (spawned dir rel_dir) others listers zero entries w h = tt
    move_on-Moved (spawned dir rel_dir) others listers (suc n) entries w h =
        (omega (arith, h left), omega (arith, h takes))
    move_on-Moved (listing dir rel_dir) others listers free entries w h = (
      omega (arith, h left, answered-left dir rel_dir (c.read_dir dir w).0 (fits dir w)),
      omega (arith, h takes),
    )
    move_on-Moved (noting dir rel_dir (err e)) others listers free entries w h =
        (omega (arith, h left), omega (arith, h takes))
    move_on-Moved (noting dir rel_dir (ok items)) others listers free entries w h =
        let names = (note_items glob patterns rel_dir items entries).1 in
        (
          omega (
            arith,
            h left,
            sum_of-append left (spawn dir rel_dir names) others,
            spawn-left dir rel_dir names,
            note_items-below dir rel_dir items entries,
          ),
          omega (
            arith,
            h takes,
            sum_of-append takes (spawn dir rel_dir names) others,
            spawn-takes dir rel_dir names,
          ),
        )

    moves_on-Moved :
        (p : Lister) (others : List Lister) (s : Walk W)
        → ((f : Lister → ℕ) → sum_of f s.listers ≡ f p + sum_of f others)
        → Moved s (move_on glob patterns c p others s)
    moves_on-Moved p others s h = move_on-Moved p others s.listers s.free_slots s.entries s.world h

    -- The goroutines before the one at hand, and the others.
    abbrev Split : Walk W → List Lister → List Lister → Type 0
    Split s before after = (f : Lister → ℕ) → sum_of f s.listers ≡ sum_of f before + sum_of f after

    advance-Moved :
        (s : Walk W) (n : ℕ) (before after : List Lister)
        → Split s before after
        → Moved s (advance glob patterns c n before after s)
    unfolding advance
    advance-Moved s n before [] h = tt
    advance-Moved s zero before (p ∷ after) h =
        moves_on-Moved p (before ++ after) s (λ f. omega (arith, h f, sum_of-append f before after))
    advance-Moved s (suc n) before (p ∷ after) h =
        advance-Moved s n (before ++ p ∷ []) after
          (λ f. omega (arith, h f, sum_of-append f before (p ∷ [])))

    any_move-Moved :
        (s : Walk W) (before after : List Lister)
        → Split s before after
        → Moved s (any_move glob patterns c before after s)
    unfolding any_move
    any_move-Moved s before [] h = tt
    any_move-Moved s before (p ∷ after) h =
        or_else-Moved s (move_on glob patterns c p (before ++ after) s) _
          (moves_on-Moved p (before ++ after) s
            (λ f. omega (arith, h f, sum_of-append f before after)))
          (any_move-Moved s (before ++ p ∷ []) after
            (λ f. omega (arith, h f, sum_of-append f before (p ∷ []))))

    pub next-Moved : (n : ℕ) (s : Walk W) → Moved s (next glob patterns c n s)
    unfolding next
    next-Moved n s =
        or_else-Moved s (advance glob patterns c n [] s.listers s) _
          (advance-Moved s n [] s.listers (λ f. omega arith))
          (any_move-Moved s [] s.listers (λ f. omega arith))
