-- ===== src/Watcher/Flight.antt =====
-- internal/watcher/queue.go: the upload queue's channel, its workers, and `claim` and `finish`,
-- which keep two workers off one file. Workers and callers interleave as a step relation, a step
-- for each time that a goroutine holds the lock or uses the channel.
pub mod Maps
pub mod Invariant
pub mod Exclusion
pub mod Tests
use sfync.Base.{ℕ, zero, ◌<◌, ◌≡◌, ◌+◌, Text, codes, Option, none, some, List, [], ◌∷◌, ◌++◌}
use sfync.Base.{Bool, true, false, if◌then◌else◌, ◌==◌, nat_eq, text_eq, length, is_some}
use sfync.Base.Dict.{Dict, lookup, insert, erase}

pub record UploadTask : Type 0 where
  pub profile_name : Text
  pub file_path : Text

-- The capacity of the channel, and the number of workers.
abbrev pub queue_cap : ℕ
queue_cap = 100

abbrev pub queue_workers : ℕ
queue_workers = 8

unfoldable pub task_key : UploadTask → Text
task_key t = t.profile_name ++ 0 ∷ t.file_path

-- What `flightMu` guards. A key is in flight when the map holds it as true.
pub record Flight : Type 0 where
  pub in_flight : Dict Text Bool
  pub pending : Dict Text UploadTask

-- `m[k]` of a map to bool: false if the key is missing.
abbrev pub get_or_false : Option Bool → Bool
get_or_false none = false
get_or_false (some b) = b

abbrev pub flies : Text → Flight → Bool
flies k f = get_or_false (lookup k f.in_flight)

unfoldable pub claim : UploadTask → Flight → Bool × Flight
claim t f =
    let key = task_key t in
    if flies key f
    then (false, record f { pending = insert key t f.pending })
    else (true, record f { in_flight = insert key true f.in_flight })

unfoldable pub finish : UploadTask → Flight → Option UploadTask × Flight
finish t f =
    let key = task_key t in
    let freed = erase key f.in_flight in
    elim (lookup key f.pending) [
      | none ↦ (none, record f { in_flight = freed })
      | some next ↦ (some next, record { in_flight = freed; pending = erase key f.pending })
    ]

-- A worker waits in its select, has a task that it has not claimed, syncs a task, or has ended.
pub data Worker : Type 0 where
  idle : Worker
  holding : UploadTask → Worker
  running : UploadTask → Worker
  ended : Worker

-- `unsynced k`: a change of the file k was queued, and no sync of it has begun since. It is not in
-- the program, and says what a lost change would be.
pub record System : Type 0 where
  pub queue : List UploadTask
  pub done : Bool
  pub flight : Flight
  pub workers : ℕ → Worker
  pub unsynced : Text → Bool

unfoldable pub init : System
init = record {
  queue = [];
  done = false;
  flight = record { in_flight = []; pending = [] };
  workers = λ w. idle;
  unsynced = λ k. false;
}

abbrev pub set_worker : ℕ → Worker → (ℕ → Worker) → ℕ → Worker
set_worker w x ws v = if v == w then x else ws v

abbrev pub mark : Text → Bool → (Text → Bool) → Text → Bool
mark k b u j = if j == k then b else u j

-- What a worker does after `claim`: on false it goes back to its select.
abbrev pub after_claim : UploadTask → Bool → Worker
after_claim t true = running t
after_claim t false = idle

-- What a worker does after `finish`: it runs the task that it was handed.
abbrev pub after_finish : Option UploadTask → Worker
after_finish none = idle
after_finish (some t) = holding t

-- The sync of a claimed task begins.
abbrev pub begun : UploadTask → Bool → (Text → Bool) → Text → Bool
begun t true u = mark (task_key t) false u
begun t false u = u

pub data Step (s : System) : System → Type 0 where
  -- `Enqueue` sends into a channel with room. After `Stop` it may drop the task instead.
  enqueue :
      (t : UploadTask)
      → length s.queue < queue_cap
      → Step s
          (record s { queue = s.queue ++ t ∷ []; unsynced = mark (task_key t) true s.unsynced })
  receive :
      (w : ℕ) (t : UploadTask) (rest : List UploadTask)
      → w < queue_workers
      → s.workers w ≡ idle
      → s.queue ≡ t ∷ rest
      → Step s (record s { queue = rest; workers = set_worker w (holding t) s.workers })
  claims :
      (w : ℕ) (t : UploadTask)
      → s.workers w ≡ holding t
      → Step s (record s {
        flight = (claim t s.flight).1;
        workers = set_worker w (after_claim t (claim t s.flight).0) s.workers;
        unsynced = begun t (claim t s.flight).0 s.unsynced;
      })
  finishes :
      (w : ℕ) (t : UploadTask)
      → s.workers w ≡ running t
      → Step s (record s {
        flight = (finish t s.flight).1;
        workers = set_worker w (after_finish (finish t s.flight).0) s.workers;
      })
  stop : Step s (record s { done = true })
  leaves :
      (w : ℕ)
      → s.done ≡ true
      → s.workers w ≡ idle
      → Step s (record s { workers = set_worker w ended s.workers })

pub data Reach : System → Type 0 where
  start : Reach init
  next : {s t : System} → Reach s → Step s t → Reach t
