-- ===== src/Transfer/Mirror/Transfers/Workers.antt =====
-- internal/transfer/mirror.go, `runTransfers`: whatever the scheduler chooses, the workers come to
-- an end, and each job is reported once.
use sfync.Base.{ℕ, zero, suc, ◌+◌, ◌*◌, ◌<◌, ◌≤◌, min, ◌≡◌, refl, Option, none, some, List, []}
use sfync.Base.{◌∷◌, Bool, true, false, if◌then◌else◌, length, arith}
use sfync.Transfer.Types.{MirrorEntry}
use sfync.Transfer.Client.{Error}
use sfync.Transfer.Remote.{RemoteClient}
use sfync.Transfer.Mirror.Transfers.{
  TransferJob, Phase, attempting, failed, lost, again, reports, Guarded, Holder, Transfers, or_else,
  send_job, report, move_on, advance, chosen, next, moves, started, run_transfers,
  max_concurrent_transfers,
}
use sfync.Transfer.Mirror.Transfers.Progress.{
  sum_of, Report, reported, subject, left, held, state, todo,
}
use sfync.Transfer.Mirror.Transfers.Moves.{Good, Moved, next-Moved}

module _ {W R : Type 0} (c : RemoteClient W) (on_result : MirrorEntry → Option Error → R → R)
    (workers : ℕ) (jobs0 : List (TransferJob W)) (r0 : R) where
  nothing-or_else :
      (o other : Option (Transfers W R)) → or_else o other ≡ none → (o ≡ none) × (other ≡ none)
  nothing-or_else none other e = (refl, e)
  nothing-or_else (some t) other e = absurd (cc)

  -- Where nothing can move, nothing is left to do.
  module _ (some_worker : 0 < workers) where
    stuck :
        (jobs : List (TransferJob W)) (free : ℕ) (busy : List (Phase W)) (mu : Option (Holder R))
        (g : Guarded W) (r : R)
        → Good c on_result workers jobs0 r0 (state jobs free busy mu g r)
        → report c on_result (state jobs free busy mu g r) ≡ none
        → send_job c on_result (state jobs free busy mu g r) ≡ none
        → advance c on_result 0 [] busy (state jobs free busy mu g r) ≡ none
        → todo (state jobs free busy mu g r) ≡ 0
    unfolding report send_job advance move_on
    stuck jobs free busy (some h) g r good e1 e2 e3 = absurd (cc)
    stuck jobs free (reports a e ∷ busy) none g r good e1 e2 e3 = absurd (cc)
    stuck jobs free (attempting job ∷ busy) none g r good e1 e2 e3 = absurd (cc)
    stuck jobs free (failed job gen e ∷ busy) none g r good e1 e2 e3 = absurd (cc)
    stuck jobs free (lost job gen e ∷ busy) none g r good e1 e2 e3 = absurd (cc)
    stuck jobs free (again job ∷ busy) none g r good e1 e2 e3 = absurd (cc)
    stuck [] free [] none g r good e1 e2 e3 = refl
    stuck (job ∷ jobs) zero [] none g r good e1 e2 e3 = absurd (omega (arith, good.0))
    stuck (job ∷ jobs) (suc free) [] none g r good e1 e2 e3 = absurd (cc)

    next-stuck :
        (n : ℕ) (t : Transfers W R)
        → Good c on_result workers jobs0 r0 t
        → next c on_result n t ≡ none
        → todo t ≡ 0
    unfolding next
    next-stuck n t good e =
        let (_, e') = nothing-or_else (chosen c on_result n t) _ e in
        let (e1, e'') = nothing-or_else (report c on_result t) _ e' in
        let (e2, e3) = nothing-or_else (send_job c on_result t) _ e'' in
        stuck t.jobs t.free t.busy t.result_mu t.guarded t.result good e1 e2 e3

    abbrev Done : Transfers W R → Type 0
    Done t = Good c on_result workers jobs0 r0 t × (todo t ≡ 0)

    -- Whatever the scheduler chooses, as many moves as are left bring the run to its end.
    moves-Done :
        (fuel : ℕ) (sched : ℕ → ℕ) (t : Transfers W R)
        → todo t ≤ fuel
        → Good c on_result workers jobs0 r0 t
        → Done (moves c on_result fuel sched t)
    unfolding moves
    moves-Done zero sched t h good = (good, omega arith)
    moves-Done (suc fuel) sched t h good =
        by_next (next c on_result (sched fuel) t) refl
          (next-Moved c on_result workers jobs0 r0 t (sched fuel)) (λ t'. moves-Done fuel sched t')
      where
        by_next :
            (o : Option (Transfers W R))
            → next c on_result (sched fuel) t ≡ o
            → Moved c on_result workers jobs0 r0 t o
            → ((t' : Transfers W R)
                → todo t' ≤ fuel
                → Good c on_result workers jobs0 r0 t'
                → Done (moves c on_result fuel sched t'))
            → Done (elim o [ none ↦ t | some t' ↦ moves c on_result fuel sched t' ])
        by_next none e moved rest = (good, next-stuck (sched fuel) t good e)
        by_next (some t') e (less, keeps) rest = rest t' (omega arith) (keeps good)

nothing_left :
    {W R : Type 0} (t : Transfers W R) (f : MirrorEntry → ℕ)
    → todo t ≡ 0
    → sum_of (λ j. f j.action) t.jobs + sum_of (λ p. f (subject p)) t.busy + held f t.result_mu ≡ 0
nothing_left t f h = step t.jobs t.busy t.result_mu (omega arith)
  where
    step :
        {W R : Type 0} (jobs : List (TransferJob W)) (busy : List (Phase W))
        (mu : Option (Holder R))
        → 7 * length jobs + sum_of left busy + held (λ _. 1) mu ≡ 0
        → sum_of (λ j. f j.action) jobs + sum_of (λ p. f (subject p)) busy + held f mu ≡ 0
    step [] [] none e = refl
    step [] [] (some _) e = absurd (omega arith)
    step [] (attempting _ ∷ busy) mu e = absurd (omega arith)
    step [] (failed _ _ _ ∷ busy) mu e = absurd (omega arith)
    step [] (lost _ _ _ ∷ busy) mu e = absurd (omega arith)
    step [] (again _ ∷ busy) mu e = absurd (omega arith)
    step [] (reports _ _ ∷ busy) mu e = absurd (omega arith)
    step (_ ∷ _) busy mu e = absurd (omega arith)

module _ {W R : Type 0} (c : RemoteClient W) (on_result : MirrorEntry → Option Error → R → R) where
  -- A result that reports make, one at a time, which name each job once: for whatever is counted of
  -- the entries, the reports have as much of it as the jobs.
  abbrev pub Reports : List (TransferJob W) → R → R → Type 0
  Reports jobs r r' =
      (l : List Report) × (r' ≡ reported on_result l r)
      × ((f : MirrorEntry → ℕ) → sum_of (λ o. f o.0) l ≡ sum_of (λ j. f j.action) jobs)

  abbrev started_workers : List (TransferJob W) → ℕ
  started_workers jobs =
      if c.supports_concurrent then min max_concurrent_transfers (length jobs) else 1

  some_started :
      (job : TransferJob W) (jobs : List (TransferJob W)) (b : Bool)
      → 0 < (if b then min max_concurrent_transfers (length (job ∷ jobs)) else 1)
  some_started job jobs true = omega arith
  some_started job jobs false = omega arith

  -- Whatever the scheduler chooses of its workers, `runTransfers` returns when every job has been
  -- reported: its result is that of calling `onResult` for outcomes one at a time, which name each
  -- job once.
  pub run_transfers-Reports :
      (sched : W → ℕ → ℕ) (jobs : List (TransferJob W)) (r : R) (w : W)
      → Reports jobs r (run_transfers c on_result sched jobs r w).0
  unfolding run_transfers started
  run_transfers-Reports sched [] r w = ([], refl, λ f. refl)
  run_transfers-Reports sched (job ∷ jobs) r w =
      let all = job ∷ jobs in
      let t = started c on_result all r w in
      let done =
        moves-Done c on_result (started_workers all) all r
          (some_started job jobs c.supports_concurrent) (7 * length all) (sched w) t (omega arith)
          (omega arith, tt, ([], refl, λ f. omega arith)) in
      let (l, e, sums) = done.0.2 in
      (
        l,
        e,
        λ f.
            omega (
              arith,
              sums f,
              nothing_left (moves c on_result (7 * length all) (sched w) t) f done.1,
            ),
      )
