-- ===== src/Watcher/Flight/Exclusion.antt =====
-- No file is synced by two workers of internal/watcher/queue.go at once, and no change is lost.
use sfync.Base.{ℕ, ◌≡◌, ◌≢◌, inl, inr, subst, Text, none}
use sfync.Base.{[], false, nat_eq, text_eq}
use sfync.Base.{arith, Bool-cases, Option-cases}
use sfync.Base.Dict.{lookup}
use sfync.Watcher.Flight.{UploadTask, task_key, holding, running, System, Reach}
use sfync.Watcher.Flight.Maps.{Queued}
use sfync.Watcher.Flight.Invariant.{Reach-Inv}

-- However the workers and the callers interleave, two workers never sync one file at once.
pub Reach_exclusive :
    (s : System) (v w : ℕ) (t u : UploadTask)
    → Reach s
    → s.workers v ≡ running t
    → s.workers w ≡ running u
    → task_key t ≡ task_key u
    → v ≡ w
Reach_exclusive s v w t u r = (Reach-Inv r).exclusive v w t u

-- When the channel is empty and no worker has a task, every queued change has had a sync that
-- began after it, and no task is left parked.
pub Reach_quiet :
    (s : System)
    → Reach s
    → s.queue ≡ []
    → ((w : ℕ) (t : UploadTask) → (s.workers w ≢ holding t) × (s.workers w ≢ running t))
    → (k : Text) → (s.unsynced k ≡ false) × (lookup k s.flight.pending ≡ none)
Reach_quiet s r empty rest k =
    let i = Reach-Inv r in
    let unparked : lookup k s.flight.pending ≡ none =
      elim (Option-cases (lookup k s.flight.pending)) [
        | inl e ↦ e
        | inr (t, e) ↦ let (w, o) = i.owned k (i.parked k t e).0 in absurd ((rest w o.0).1 o.1)
      ] in
    (
      elim (Bool-cases (s.unsynced k)) [
        | inr e ↦ e
        | inl e ↦ elim (i.covered k e) [
          | inl q ↦ elim (subst (Queued k) empty q) [ ]
          | inr (inl (w, o)) ↦ absurd ((rest w o.0).0 o.1)
          | inr (inr p) ↦ ground arith
        ]
      ],
      unparked,
    )
