-- ===== src/Transfer/Mirror/Order.antt =====
-- internal/transfer/mirror.go: `sortActions` and `depthLevels`. `sort.Slice` is a parameter: it is
-- not stable, so all that the program has of it is a sorted arrangement of the elements.
pub mod Phases
pub mod Levels
use sfync.Base.{ℕ, zero, suc, ◌≤◌, ◌≡◌, Text, List, [], ◌∷◌, ◌++◌, Perm, Bool, true, false}
use sfync.Base.{ltb, if◌then◌else◌, ◌==◌, nat_eq, length, AllPairs, count_byte}
use sfync.Transfer.Types.{MirrorEntry, MirrorAction}
use sfync.Transfer.Types.{action_upload, action_download, action_delete, action_delete_dir}
use sfync.Transfer.Types.{action_mkdir, action_skip, action_conflict}

abbrev pub Less : Type 0
Less = MirrorEntry → MirrorEntry → Bool

-- What the documentation of `sort.Slice` asks of `less`.
pub record IsStrictWeakOrder (less : Less) : Type 0 where
  pub irreflexive : (a : MirrorEntry) → less a a ≡ false
  pub transitive : (a b c : MirrorEntry) → less a b ≡ true → less b c ≡ true → less a c ≡ true
  pub ties_transitive :
      (a b c : MirrorEntry) → less a b ≡ false → less b c ≡ false → less a c ≡ false

-- `sort.Slice(x, less)` rearranges x, and leaves no element before one that is less.
pub record SliceSort : Type 0 where
  pub slice : Less → List MirrorEntry → List MirrorEntry
  pub slice-perm : (less : Less) (l : List MirrorEntry) → Perm (slice less l) l
  pub slice_sorted :
      (less : Less) (l : List MirrorEntry)
      → IsStrictWeakOrder less
      → AllPairs (λ a b. less b a ≡ false) (slice less l)

-- The five slices of `sortActions`.
pub record Buckets : Type 0 where
  pub mkdirs : List MirrorEntry
  pub transfers : List MirrorEntry
  pub deletes : List MirrorEntry
  pub delete_dirs : List MirrorEntry
  pub conflicts : List MirrorEntry

-- The switch. A skip goes into no bucket.
unfoldable pub place : MirrorEntry → MirrorAction → Buckets → Buckets
place a action_mkdir b = record b { mkdirs = a ∷ b.mkdirs }
place a action_upload b = record b { transfers = a ∷ b.transfers }
place a action_download b = record b { transfers = a ∷ b.transfers }
place a action_delete b = record b { deletes = a ∷ b.deletes }
place a action_delete_dir b = record b { delete_dirs = a ∷ b.delete_dirs }
place a action_conflict b = record b { conflicts = a ∷ b.conflicts }
place a action_skip b = b

-- The loop.
unfoldable pub bucket : List MirrorEntry → Buckets
unfolding place
bucket [] = record { mkdirs = []; transfers = []; deletes = []; delete_dirs = []; conflicts = [] }
bucket (a ∷ actions) = place a a.action (bucket actions)

-- `strings.Count(a.RelPath, "/")`
unfoldable pub depth : MirrorEntry → ℕ
unfolding count_byte
depth a = count_byte b'/' a.rel_path

unfoldable pub shallower : Less
unfolding depth
shallower a b = ltb (depth a) (depth b)

unfoldable pub deeper : Less
unfolding depth
deeper a b = ltb (depth b) (depth a)

module _ (S : SliceSort) where
  unfoldable pub sort_actions : List MirrorEntry → List MirrorEntry
  unfolding bucket shallower deeper
  sort_actions actions =
      let b = bucket actions in
      S.slice shallower b.mkdirs
      ++ (b.transfers ++ (b.deletes ++ (S.slice deeper b.delete_dirs ++ b.conflicts)))

-- The inner loop of `depthLevels`: the run of entries at depth `d`, and what follows it.
unfoldable pub span_depth : ℕ → List MirrorEntry → List MirrorEntry × List MirrorEntry
unfolding depth
span_depth d [] = ([], [])
span_depth d (a ∷ rest) =
    let (run, later) = span_depth d rest in
    if depth a == d then (a ∷ run, later) else ([], a ∷ rest)

-- The outer loop, on fuel; each round takes at least one entry.
unfoldable pub levels_loop : ℕ → List MirrorEntry → List (List MirrorEntry)
unfolding span_depth
levels_loop zero entries = []
levels_loop (suc fuel) [] = []
levels_loop (suc fuel) (a ∷ rest) =
    let (run, later) = span_depth (depth a) rest in (a ∷ run) ∷ levels_loop fuel later

unfoldable pub depth_levels : List MirrorEntry → List (List MirrorEntry)
unfolding levels_loop
depth_levels entries = levels_loop (length entries) entries
