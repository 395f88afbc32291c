-- ===== src/Transfer/Mirror/Transfers.antt =====
-- internal/transfer/mirror.go: `runTransfers`, its workers and the coordinator of reconnects. Each
-- function here is one stretch that a goroutine runs while it holds a lock (of the coordinator for
-- an attempt, a probe or a reconnect), or a handing over of a job; the stretches interleave as a
-- scheduler chooses, which is a parameter. What a transfer does to the world it does at one moment.
-- The mutex of the results is a part of the state, with what its holder has read.
pub mod Progress
pub mod Moves
pub mod Workers
use sfync.Base.{
  ℕ, zero, suc, ◌+◌, ◌*◌, min, ◌≡◌, refl, Option, none, some, List, [], ◌∷◌, ◌++◌, Bool,
}
use sfync.Base.{false, if◌then◌else◌, ◌==◌, nat_eq, length, arith}
use sfync.Transfer.Types.{MirrorEntry}
use sfync.Transfer.Client.{Error}
use sfync.Transfer.Remote.{RemoteClient}

-- `transferJob`
pub record TransferJob (W : Type 0) : Type 0 where
  pub action : MirrorEntry
  pub run : W → Option Error × W

-- Where a worker is between taking a job and reporting its outcome: before the first attempt,
-- behind a failed one, behind `healthy` where that says no, before the second attempt, and
-- waiting for `resultMu`.
pub data Phase (W : Type 0) : Type 0 where
  attempting : TransferJob W → Phase W
  failed lost : TransferJob W → ℕ → Error → Phase W
  again : TransferJob W → Phase W
  reports : MirrorEntry → Option Error → Phase W

-- The generation of the coordinator, and the world.
abbrev pub Guarded : Type 0 → Type 0
Guarded W = ℕ × W

module _ {W : Type 0} where
  -- `jobsFor`
  unfoldable pub jobs_for :
      List MirrorEntry → (MirrorEntry → W → Option Error × W) → List (TransferJob W)
  jobs_for [] fn = []
  jobs_for (a ∷ entries) fn = record { action = a; run = fn a } ∷ jobs_for entries fn

  -- `runGuarded`: the generation that was seen, and the error.
  unfoldable pub run_guarded : (W → Option Error × W) → Guarded W → (ℕ × Option Error) × Guarded W
  run_guarded fn (gen, w) = let (e, w') = fn w in ((gen, e), (gen, w'))

  -- `healthy`. The liveness probe is skipped if there was a reconnect.
  unfoldable pub healthy : RemoteClient W → ℕ → Guarded W → Bool × Guarded W
  healthy c observed (gen, w) =
      if gen == observed
      then (let (alive, w') = c.is_alive w in (alive, (gen, w')))
      else (false, (gen, w))

  abbrev pub bump : Option Error → ℕ → W → Option Error × Guarded W
  bump none gen w = (none, (gen + 1, w))
  bump (some e) gen w = (some e, (gen, w))

  -- `reconnect`
  unfoldable pub reconnect : RemoteClient W → ℕ → Guarded W → Option Error × Guarded W
  reconnect c observed (gen, w) =
      if gen == observed
      then (let (e, w') = c.connect (c.close w) in bump e gen w')
      else (none, (gen, w))

  abbrev pub attempted : TransferJob W → ℕ × Option Error → Phase W
  attempted job (gen, none) = reports job.action none
  attempted job (gen, some e) = failed job gen e

  abbrev pub reconnected : TransferJob W → Error → Option Error → Phase W
  reconnected job e none = again job
  reconnected job e (some _) = reports job.action (some e)

  -- What a worker does next, up to `resultMu`.
  unfoldable pub work : RemoteClient W → Phase W → Guarded W → Phase W × Guarded W
  unfolding run_guarded healthy reconnect
  work c (attempting job) s = let (seen, s') = run_guarded job.run s in (attempted job seen, s')
  work c (failed job gen e) s =
      let (fine, s') = healthy c gen s in
      ((if fine then reports job.action (some e) else lost job gen e), s')
  work c (lost job gen e) s =
      let (failure, s') = reconnect c gen s in (reconnected job e failure, s')
  work c (again job) s = let (seen, s') = run_guarded job.run s in (reports job.action seen.1, s')
  work c (reports a e) s = (reports a e, s)

-- The worker that holds `resultMu`, with what it reports and the result that it has read.
pub record Holder (R : Type 0) : Type 0 where
  pub action : MirrorEntry
  pub outcome : Option Error
  pub seen : R

-- `runTransfers` while its workers run: the jobs that are not sent yet, the number of workers that
-- wait for one, the other workers, and what they share.
pub record Transfers (W R : Type 0) : Type 0 where
  pub jobs : List (TransferJob W)
  pub free : ℕ
  pub busy : List (Phase W)
  pub result_mu : Option (Holder R)
  pub guarded : Guarded W
  pub result : R

abbrev pub or_else : {A : Type 0} → Option A → Option A → Option A
or_else none other = other
or_else (some x) other = some x

-- `MaxConcurrentTransfers`
abbrev pub max_concurrent_transfers : ℕ
max_concurrent_transfers = 16

module _ {W R : Type 0} (c : RemoteClient W) (on_result : MirrorEntry → Option Error → R → R) where
  -- A job is sent to a worker that waits.
  unfoldable pub send_job : Transfers W R → Option (Transfers W R)
  send_job t = elim t.jobs [
    | [] ↦ none
    | job ∷ jobs ↦ elim t.free [
      | zero ↦ none
      | suc free ↦ some (record t { jobs = jobs; free = free; busy = attempting job ∷ t.busy })
    ]
  ]

  -- The holder of `resultMu` writes the result, unlocks, and waits for a job.
  unfoldable pub report : Transfers W R → Option (Transfers W R)
  report t = elim t.result_mu [
    | none ↦ none
    | some h ↦ some (record t {
      result = on_result h.action h.outcome h.seen;
      result_mu = none;
      free = suc t.free;
    })
  ]

  abbrev pub worked : List (Phase W) → Transfers W R → Phase W × Guarded W → Option (Transfers W R)
  worked others t (p, s) = some (record t { busy = p ∷ others; guarded = s })

  -- A busy worker moves on, if it does not wait for a lock that another one holds. The list is that
  -- of the other busy workers.
  unfoldable pub move_on : Phase W → List (Phase W) → Transfers W R → Option (Transfers W R)
  unfolding work
  move_on (reports a e) others t = elim t.result_mu [
    | none ↦ some (record t {
      busy = others;
      result_mu = some (record { action = a; outcome = e; seen = t.result });
    })
    | some h ↦ none
  ]
  move_on (attempting job) others t = worked others t (work c (attempting job) t.guarded)
  move_on (failed job gen e) others t = worked others t (work c (failed job gen e) t.guarded)
  move_on (lost job gen e) others t = worked others t (work c (lost job gen e) t.guarded)
  move_on (again job) others t = worked others t (work c (again job) t.guarded)

  -- The busy worker of that number.
  unfoldable pub advance :
      ℕ → List (Phase W) → List (Phase W) → Transfers W R → Option (Transfers W R)
  unfolding move_on
  advance n before [] t = none
  advance zero before (p ∷ after) t = move_on p (before ++ after) t
  advance (suc n) before (p ∷ after) t = advance n (before ++ p ∷ []) after t

  abbrev pub chosen : ℕ → Transfers W R → Option (Transfers W R)
  chosen zero t = send_job t
  chosen (suc zero) t = report t
  chosen (suc (suc n)) t = advance n [] t.busy t

  -- The goroutine that the scheduler chooses moves, or another one where that one is blocked; none
  -- where all of them are.
  unfoldable pub next : ℕ → Transfers W R → Option (Transfers W R)
  unfolding send_job report advance
  next n t =
      or_else (chosen n t) (or_else (report t) (or_else (send_job t) (advance 0 [] t.busy t)))

  -- Moves, as the scheduler chooses, until `wg.Wait` returns; each job takes seven at most.
  unfoldable pub moves : ℕ → (ℕ → ℕ) → Transfers W R → Transfers W R
  unfolding next
  moves zero sched t = t
  moves (suc fuel) sched t = elim (next (sched fuel) t) [ none ↦ t | some t' ↦ moves fuel sched t' ]

  -- The workers, none of which has a job yet.
  unfoldable pub started : List (TransferJob W) → R → W → Transfers W R
  started jobs r w = record {
    jobs = jobs;
    free = if c.supports_concurrent then min max_concurrent_transfers (length jobs) else 1;
    busy = [];
    result_mu = none;
    guarded = (0, w);
    result = r;
  }

  -- `runTransfers`. The scheduler is a parameter: its choices, from the world at the start.
  unfoldable pub run_transfers : (W → ℕ → ℕ) → List (TransferJob W) → R → W → R × W
  unfolding moves started
  run_transfers sched jobs r w =
      let t = moves (7 * length jobs) (sched w) (started jobs r w) in (t.result, t.guarded.1)

module _ {W : Type 0} where
  pub length-jobs_for :
      (entries : List MirrorEntry) (fn : MirrorEntry → W → Option Error × W)
      → length (jobs_for entries fn) ≡ length entries
  unfolding jobs_for
  length-jobs_for [] fn = refl
  length-jobs_for (a ∷ entries) fn = omega (arith, length-jobs_for entries fn)
