-- ===== src/Watcher/Flight/Maps.antt =====
-- internal/watcher/queue.go: what `claim` and `finish` make of the two maps, and which worker or
-- queue has a file.
use sfync.Base.{ℕ, ◌≡◌, ◌≢◌, ◌⊎◌, inl, inr, refl, not, Text, none, some}
use sfync.Base.{List, [], ◌∷◌, ◌++◌, true, false, if◌then◌else◌, ◌==◌, nat_eq, text_eq}
use sfync.Base.{arith}
use sfync.Base.Dict.{lookup, lookup-insert, lookup-erase}
use sfync.Watcher.Flight.{
  UploadTask, Flight, flies, task_key, claim, finish, Worker, holding, running, set_worker,
}

-- Worker `w` syncs the file `k`.
abbrev pub Syncs : (ℕ → Worker) → ℕ → Text → Type 0
Syncs ws w k = (t : UploadTask) × (ws w ≡ running t) × (task_key t ≡ k)

abbrev pub Holds : (ℕ → Worker) → ℕ → Text → Type 0
Holds ws w k = (t : UploadTask) × (ws w ≡ holding t) × (task_key t ≡ k)

-- A task of file `k` stands in a list.
abbrev pub Queued : Text → List UploadTask → Type 0
Queued k [] = ⊥
Queued k (t ∷ l) = (task_key t ≡ k) ⊎ Queued k l

module _ (k : Text) (t : UploadTask) (f : Flight) where
  pub flies-claim : flies k (claim t f).1 ≡ (if k == task_key t then true else flies k f)
  unfolding claim
  flies-claim = ground (arith, lookup-insert k (task_key t) true f.in_flight)

  pub flies-finish : flies k (finish t f).1 ≡ (if k == task_key t then false else flies k f)
  unfolding finish
  flies-finish = ground (arith, lookup-erase k (task_key t) f.in_flight)

  pub pending-claim : lookup k (claim t f).1.pending ≡ (
      if flies (task_key t) f
      then (if k == task_key t then some t else lookup k f.pending)
      else lookup k f.pending)
  unfolding claim
  pending-claim = ground (arith, lookup-insert k (task_key t) t f.pending)

  pub pending-finish :
      lookup k (finish t f).1.pending ≡ (if k == task_key t then none else lookup k f.pending)
  unfolding finish
  pending-finish = ground (arith, lookup-erase k (task_key t) f.pending)

pub claim_verdict : (t : UploadTask) (f : Flight) → (claim t f).0 ≡ not (flies (task_key t) f)
unfolding claim
claim_verdict t f = ground arith

pub finish_verdict : (t : UploadTask) (f : Flight) → (finish t f).0 ≡ lookup (task_key t) f.pending
unfolding finish
finish_verdict t f = ground arith

-- What another worker has stays, when the state of `w` changes.
module _ (ws : ℕ → Worker) (w : ℕ) (x : Worker) (k : Text) where
  pub Syncs-set_worker : (v : ℕ) → v ≢ w → Syncs ws v k → Syncs (set_worker w x ws) v k
  Syncs-set_worker v h (t, e, q) = (t, ground arith, q)

  pub Holds-set_worker : (v : ℕ) → v ≢ w → Holds ws v k → Holds (set_worker w x ws) v k
  Holds-set_worker v h (t, e, q) = (t, ground arith, q)

pub Queued-append :
    (k : Text) (l : List UploadTask) (t : UploadTask) → Queued k l → Queued k (l ++ t ∷ [])
Queued-append k [] t q = elim q [ ]
Queued-append k (u ∷ l) t (inl e) = inl e
Queued-append k (u ∷ l) t (inr q) = inr (Queued-append k l t q)

pub Queued-last : (l : List UploadTask) (t : UploadTask) → Queued (task_key t) (l ++ t ∷ [])
Queued-last [] t = inl refl
Queued-last (u ∷ l) t = inr (Queued-last l t)
