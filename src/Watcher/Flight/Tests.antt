-- ===== src/Watcher/Flight/Tests.antt =====
-- Runs of the upload queue of internal/watcher/queue.go.
use sfync.Base.{ℕ, ◌≡◌, refl, codes, none, [], arith, true, false, nat_eq, text_eq}
use sfync.Base.Dict.{lookup, insert, erase}
use sfync.Watcher.Flight.{
  UploadTask, task_key, claim, finish, idle, holding, running, System, init, enqueue, receive,
  claims, finishes, Reach, start, next,
}
use sfync.Watcher.Flight.Exclusion.{Reach_exclusive, Reach_quiet}

abbrev change : UploadTask
change = record { profile_name = codes "site"; file_path = codes "/w/a" }

-- Worker 0 syncs the change.
busy : (s : System) × Reach s × (s.workers 0 ≡ running change)
unfolding init nat_eq claim lookup
busy = (
  _,
  next
      (next (next start (enqueue change (omega arith)))
        (receive 0 change [] (omega arith) refl refl))
      (claims 0 change refl),
  refl,
)

-- A second change of the file arrives meanwhile: worker 1 parks it, and worker 0 runs it next.
parked : (s : System) × Reach s × (s.workers 0 ≡ holding change) × (s.workers 1 ≡ idle)
unfolding busy init nat_eq text_eq claim finish lookup insert erase task_key
parked = (
  _,
  next
      (next
        (next (next busy.1 (enqueue change (omega arith)))
          (receive 1 change [] (omega arith) refl refl))
        (claims 1 change refl))
      (finishes 0 change refl),
  refl,
  refl,
)

quiet : (s : System) × Reach s × (s.queue ≡ []) × ((w : ℕ) → s.workers w ≡ idle)
unfolding busy init nat_eq text_eq claim finish lookup insert erase task_key
quiet = (_, next busy.1 (finishes 0 change refl), refl, λ w. ground arith)

Reach_exclusive_example : ◌≡◌ {A = ℕ} 0 0
Reach_exclusive_example = Reach_exclusive busy.0 0 0 change change busy.1 busy.2 busy.2 refl

Reach_quiet_example :
    (quiet.0.unsynced (task_key change) ≡ false)
    × (lookup (task_key change) quiet.0.flight.pending ≡ none)
Reach_quiet_example =
    Reach_quiet quiet.0 quiet.1 quiet.2
      (λ w t. (ground (arith, quiet.3 w), ground (arith, quiet.3 w))) (task_key change)

-- The change that came while the file was synced is not lost: worker 0 holds it, and it is still
-- marked.
parked_change : (parked.0.unsynced (task_key change) ≡ true) × (parked.0.flight.pending ≡ [])
unfolding parked
parked_change = (refl, refl)
