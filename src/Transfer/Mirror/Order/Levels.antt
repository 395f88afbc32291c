-- ===== src/Transfer/Mirror/Order/Levels.antt =====
-- The runs of equal depth that `depthLevels` of internal/transfer/mirror.go cuts a list into.
use mathlib.Core.List.{flatten}
use sfync.Base.{ℕ, zero, suc, ◌≤◌, ◌≡◌, ◌≢◌, refl, List, [], ◌∷◌, ◌++◌, arith}
use sfync.Base.{length, All, Chain, nat_eq}
use sfync.Transfer.Types.{MirrorEntry}
use sfync.Transfer.Mirror.Order.{depth, span_depth, levels_loop, depth_levels}

span_depth-append : (d : ℕ) (l : List MirrorEntry) → (span_depth d l).0 ++ (span_depth d l).1 ≡ l
unfolding span_depth
span_depth-append d [] = refl
span_depth-append d (a ∷ l) = ground (arith, span_depth-append d l)

span_depth-length-le : (d : ℕ) (l : List MirrorEntry) → length (span_depth d l).1 ≤ length l
unfolding span_depth
span_depth-length-le d [] = omega arith
span_depth-length-le d (a ∷ l) = ground (arith, span_depth-length-le d l)

-- One level: not empty, and all of the depth of its first entry.
abbrev pub IsLevel : List MirrorEntry → Type 0
IsLevel [] = ⊥
IsLevel (a ∷ run) = All (λ b. depth b ≡ depth a) run

span_depth-All : (d : ℕ) (l : List MirrorEntry) → All (λ b. depth b ≡ d) (span_depth d l).0
unfolding span_depth
span_depth-All d [] = tt
span_depth-All d (a ∷ l) = ground (arith, span_depth-All d l)

flatten-levels_loop :
    (fuel : ℕ) (l : List MirrorEntry) → length l ≤ fuel → flatten (levels_loop fuel l) ≡ l
unfolding levels_loop flatten
flatten-levels_loop zero [] h = refl
flatten-levels_loop zero (a ∷ l) h = absurd (omega arith)
flatten-levels_loop (suc fuel) [] h = refl
flatten-levels_loop (suc fuel) (a ∷ l) h =
    let later = (span_depth (depth a) l).1 in
    let shorter = span_depth-length-le (depth a) l in
    rw (flatten-levels_loop fuel later (omega arith), span_depth-append (depth a) l)

levels_loop-IsLevel : (fuel : ℕ) (l : List MirrorEntry) → All IsLevel (levels_loop fuel l)
unfolding levels_loop
levels_loop-IsLevel zero l = tt
levels_loop-IsLevel (suc fuel) [] = tt
levels_loop-IsLevel (suc fuel) (a ∷ l) =
    (span_depth-All (depth a) l, levels_loop-IsLevel fuel (span_depth (depth a) l).1)

-- The first entry is of another depth than `d`.
abbrev Differs : ℕ → List MirrorEntry → Type 0
Differs d [] = Unit
Differs d (b ∷ l) = depth b ≢ d

span_depth-Differs : (d : ℕ) (l : List MirrorEntry) → Differs d (span_depth d l).1
unfolding span_depth
span_depth-Differs d [] = tt
span_depth-Differs d (a ∷ l) = ground (arith, span_depth-Differs d l)

-- Two levels that follow one another are of different depths.
abbrev pub Apart : List MirrorEntry → List MirrorEntry → Type 0
Apart [] run = ⊥
Apart (a ∷ _) run = Differs (depth a) run

cons-Chain :
    (a : MirrorEntry) (run : List MirrorEntry) (fuel : ℕ) (later : List MirrorEntry)
    → Differs (depth a) later
    → Chain Apart (levels_loop fuel later)
    → Chain Apart ((a ∷ run) ∷ levels_loop fuel later)
unfolding levels_loop
cons-Chain a run zero later d c = tt
cons-Chain a run (suc fuel) [] d c = tt
cons-Chain a run (suc fuel) (b ∷ later) d c = (d, c)

levels_loop-Chain : (fuel : ℕ) (l : List MirrorEntry) → Chain Apart (levels_loop fuel l)
unfolding levels_loop
levels_loop-Chain zero l = tt
levels_loop-Chain (suc fuel) [] = tt
levels_loop-Chain (suc fuel) (a ∷ l) =
    let (run, later) = span_depth (depth a) l in
    cons-Chain a run fuel later (span_depth-Differs (depth a) l) (levels_loop-Chain fuel later)

-- The levels put together are the list that was given, in its order; no level is empty; the
-- entries of one level are of one depth, and those of two adjacent levels are not.
pub depth_levels_lem :
    (entries : List MirrorEntry)
    → (flatten (depth_levels entries) ≡ entries)
      × All IsLevel (depth_levels entries)
      × Chain Apart (depth_levels entries)
unfolding depth_levels
depth_levels_lem entries = (
  flatten-levels_loop (length entries) entries (omega arith),
  levels_loop-IsLevel (length entries) entries,
  levels_loop-Chain (length entries) entries,
)
