-- ===== src/Transfer/Mirror/Scan/Remote.antt =====
-- internal/transfer/mirror.go: `walkRemote` with its goroutines, for a client that answers
-- concurrent requests. Each goroutine waits for a slot of the semaphore, lists its directory, and
-- then, with the mutex, notes the items and starts a goroutine for each subdirectory; these stretches
-- interleave as a scheduler chooses, which is a parameter. A goroutine ends, and leaves its slot,
-- in the stretch in which it starts the others.
use sfync.Base.{ℕ, zero, suc, ◌*◌, Text, codes, Option, none, some, List, [], ◌∷◌, ◌++◌}
use sfync.Base.{if◌then◌else◌}
use sfync.Base.Dict.{Dict}
use sfync.Ignore.{Matcher}
use sfync.Transfer.Types.{RemoteFileInfo}
use sfync.Transfer.Remote.{RemoteClient, Answer, ok, err}
use sfync.Transfer.Mirror.Scan.{relative, note_items, walk_dir}
use sfync.Transfer.Mirror.Transfers.{or_else}

-- A goroutine for a directory and its path: before the slot, before the request, and behind it.
pub data Lister : Type 0 where
  spawned listing : Text → Text → Lister
  noting : Text → Text → Answer (List RemoteFileInfo) → Lister

pub record Walk (W : Type 0) : Type 0 where
  pub listers : List Lister
  pub free_slots : ℕ
  pub entries : Dict Text RemoteFileInfo
  pub world : W

-- `MaxConcurrentReadDir`
abbrev pub max_concurrent_read_dir : ℕ
max_concurrent_read_dir = 32

-- The goroutines for the subdirectories.
unfoldable pub spawn : Text → Text → List Text → List Lister
unfolding relative
spawn dir rel_dir [] = []
spawn dir rel_dir (name ∷ names) =
    spawned (dir ++ (codes "/" ++ name)) (relative rel_dir name) ∷ spawn dir rel_dir names

module _ {W : Type 0} (glob : Matcher) (patterns : List Text) (c : RemoteClient W) where
  -- The goroutine moves on, unless it waits for a slot; the list is that of the others.
  unfoldable pub move_on : Lister → List Lister → Walk W → Option (Walk W)
  unfolding note_items spawn
  move_on (spawned dir rel_dir) others s = elim s.free_slots [
    | zero ↦ none
    | suc n ↦ some (record s { listers = listing dir rel_dir ∷ others; free_slots = n })
  ]
  move_on (listing dir rel_dir) others s =
      let (answer, w) = c.read_dir dir s.world in
      some (record s { listers = noting dir rel_dir answer ∷ others; world = w })
  move_on (noting dir rel_dir (err e)) others s =
      some (record s { listers = others; free_slots = suc s.free_slots })
  move_on (noting dir rel_dir (ok items)) others s =
      let (entries, subdirs) = note_items glob patterns rel_dir items s.entries in
      some (record s {
        listers = spawn dir rel_dir subdirs ++ others;
        free_slots = suc s.free_slots;
        entries = entries;
      })

  -- The goroutine of that number.
  unfoldable pub advance : ℕ → List Lister → List Lister → Walk W → Option (Walk W)
  unfolding move_on
  advance n before [] s = none
  advance zero before (p ∷ after) s = move_on p (before ++ after) s
  advance (suc n) before (p ∷ after) s = advance n (before ++ p ∷ []) after s

  -- The first goroutine that is not blocked.
  unfoldable pub any_move : List Lister → List Lister → Walk W → Option (Walk W)
  unfolding move_on
  any_move before [] s = none
  any_move before (p ∷ after) s =
      or_else (move_on p (before ++ after) s) (any_move (before ++ p ∷ []) after s)

  -- The goroutine that the scheduler chooses moves, or another one where that one is blocked.
  unfoldable pub next : ℕ → Walk W → Option (Walk W)
  unfolding advance any_move
  next n s = or_else (advance n [] s.listers s) (any_move [] s.listers s)

  -- `wg.Wait` returns when all goroutines have ended; none where it does not return.
  abbrev pub waited : List Lister → Walk W → Option (Dict Text RemoteFileInfo × W)
  waited [] s = some (s.entries, s.world)
  waited (_ ∷ _) s = none

  unfoldable pub moves : ℕ → (ℕ → ℕ) → Walk W → Option (Dict Text RemoteFileInfo × W)
  unfolding next
  moves zero sched s = waited s.listers s
  moves (suc fuel) sched s = elim (next (sched fuel) s) [
    | none ↦ waited s.listers s
    | some s' ↦ moves fuel sched s'
  ]

  abbrev pub walk_started : Text → W → Walk W
  walk_started remote_root w = record {
    listers = spawned remote_root [] ∷ [];
    free_slots = max_concurrent_read_dir;
    entries = [];
    world = w;
  }

  -- `walkRemote`, which returns no error. The fuel bounds how many directories there are.
  unfoldable pub walk_remote : (W → ℕ → ℕ) → ℕ → Text → W → Option (Dict Text RemoteFileInfo × W)
  unfolding moves walk_dir
  walk_remote sched fuel remote_root w =
      if c.supports_concurrent
      then moves (3 * fuel) (sched w) (walk_started remote_root w)
      else walk_dir glob patterns c fuel remote_root [] [] w
