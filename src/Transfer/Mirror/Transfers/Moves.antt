-- ===== src/Transfer/Mirror/Transfers/Moves.antt =====
-- internal/transfer/mirror.go, `runTransfers`: what one move of a goroutine does to the run.
use sfync.Base.{ℕ, zero, suc, ◌+◌, ◌<◌, ◌≡◌, refl, ap, ◌∙◌, Option, none, some, List, []}
use sfync.Base.{◌∷◌, ◌++◌, Bool, true, false, if◌then◌else◌, length, arith}
use sfync.Transfer.Types.{MirrorEntry}
use sfync.Transfer.Client.{Error}
use sfync.Transfer.Remote.{RemoteClient}
use sfync.Transfer.Mirror.Transfers.{
  TransferJob, Phase, attempting, failed, lost, again, reports, Guarded, attempted, reconnected,
  work, Holder, Transfers, or_else, send_job, report, worked, move_on, advance, chosen, next,
  run_guarded, healthy, reconnect,
}
use sfync.Transfer.Mirror.Transfers.Progress.{
  sum_of, sum_of-append, sum_of-one, Report, reported, subject, left, held, Fresh, state, todo,
}

module _ {W R : Type 0} (c : RemoteClient W) (on_result : MirrorEntry → Option Error → R → R)
    (workers : ℕ) (jobs0 : List (TransferJob W)) (r0 : R) where
  -- No worker is lost, the holder of the mutex has read the result as it is, and the result is that
  -- of the outcomes reported so far, which with the jobs at hand are all jobs.
  abbrev pub Good : Transfers W R → Type 0
  Good t =
      (t.free + length t.busy + held (λ _. 1) t.result_mu ≡ workers)
      × Fresh t.result_mu t.result
      × ((l : List Report) × (t.result ≡ reported on_result l r0)
          × ((f : MirrorEntry → ℕ)
              → sum_of (λ o. f o.0) l
                  + sum_of (λ j. f j.action) t.jobs
                  + sum_of (λ p. f (subject p)) t.busy
                  + held f t.result_mu
                ≡ sum_of (λ j. f j.action) jobs0))

  abbrev pub Moved : Transfers W R → Option (Transfers W R) → Type 0
  Moved t none = Unit
  Moved t (some t') = (todo t' < todo t) × (Good t → Good t')

  or_else-Moved :
      (t : Transfers W R) (o other : Option (Transfers W R))
      → Moved t o
      → Moved t other
      → Moved t (or_else o other)
  or_else-Moved t none other h k = k
  or_else-Moved t (some t') other h k = h

  module _ (g : Guarded W) where
    send_job-Moved :
        (jobs : List (TransferJob W)) (free : ℕ) (busy : List (Phase W)) (mu : Option (Holder R))
        (r : R)
        → Moved (state jobs free busy mu g r) (send_job c on_result (state jobs free busy mu g r))
    unfolding send_job
    send_job-Moved [] free busy mu r = tt
    send_job-Moved (job ∷ jobs) zero busy mu r = tt
    send_job-Moved (job ∷ jobs) (suc free) busy mu r = (
      omega arith,
      λ good.
          let (n, fresh, found) = good in
          let (l, e, sums) = found in (omega arith, fresh, (l, e, λ f. omega (arith, sums f))),
    )

    report-Moved :
        (jobs : List (TransferJob W)) (free : ℕ) (busy : List (Phase W)) (mu : Option (Holder R))
        (r : R)
        → Moved (state jobs free busy mu g r) (report c on_result (state jobs free busy mu g r))
    unfolding report
    report-Moved jobs free busy none r = tt
    report-Moved jobs free busy (some h) r = (
      omega arith,
      λ good.
          let (n, fresh, found) = good in
          let (l, e, sums) = found in
          (
            omega arith,
            tt,
            (
              (h.action, h.outcome) ∷ l,
              ap (λ x. on_result h.action h.outcome x) (fresh ∙ e),
              λ f. omega (arith, sums f),
            ),
          ),
    )

  -- A move of a busy worker leaves its job and brings it nearer to its report.
  abbrev Nearer : Phase W → Phase W → Type 0
  Nearer p q = (left q < left p) × (subject q ≡ subject p)

  attempted-Nearer :
      (job : TransferJob W) (seen : ℕ × Option Error) → Nearer (attempting job) (attempted job seen)
  attempted-Nearer job (gen, none) = (omega arith, refl)
  attempted-Nearer job (gen, some e) = (omega arith, refl)

  judged-Nearer :
      (job : TransferJob W) (gen : ℕ) (e : Error) (fine : Bool)
      → Nearer (failed job gen e) (if fine then reports job.action (some e) else lost job gen e)
  judged-Nearer job gen e true = (omega arith, refl)
  judged-Nearer job gen e false = (omega arith, refl)

  reconnected-Nearer :
      (job : TransferJob W) (gen : ℕ) (e : Error) (failure : Option Error)
      → Nearer (lost job gen e) (reconnected job e failure)
  reconnected-Nearer job gen e none = (omega arith, refl)
  reconnected-Nearer job gen e (some _) = (omega arith, refl)

  module _ (others : List (Phase W)) (t : Transfers W R) where
    -- `others` are the other busy workers.
    abbrev Others : Phase W → Type 0
    Others p = (f : Phase W → ℕ) → sum_of f t.busy ≡ f p + sum_of f others

    worked-Moved :
        (p : Phase W) (r : Phase W × Guarded W)
        → Others p
        → Nearer p r.0
        → Moved t (worked c on_result others t r)
    worked-Moved p (q, g) h (less, same) = (
      omega (arith, h left),
      λ good.
          let (n, fresh, found) = good in
          let (l, e, sums) = found in
          (
            omega (arith, h (λ _. 1), sum_of-one t.busy, sum_of-one others),
            fresh,
            (l, e, λ f. omega (arith, sums f, h (λ x. f (subject x)), ap f same)),
          ),
    )

    -- The worker takes the mutex where it is free.
    locks-Moved :
        (a : MirrorEntry) (e : Option Error)
        → Others (reports a e)
        → Moved t (move_on c on_result (reports a e) others t)
    unfolding move_on
    locks-Moved a e h = by_mutex t.result_mu refl
      where
        by_mutex :
            (mu : Option (Holder R))
            → t.result_mu ≡ mu
            → Moved t (elim mu [
              | none ↦ some (record t {
                busy = others;
                result_mu = some (record { action = a; outcome = e; seen = t.result });
              })
              | some h ↦ none
            ])
        by_mutex (some _) free = tt
        by_mutex none free =
            let empty = λ (f : MirrorEntry → ℕ). ap (λ mu. held f mu) free in
            (
              omega (arith, h left, empty (λ _. 1)),
              λ good.
                  let (n, fresh, found) = good in
                  let (l, same, sums) = found in
                  (
                    omega (arith, h (λ _. 1), sum_of-one t.busy, sum_of-one others, empty (λ _. 1)),
                    refl,
                    (l, same, λ f. omega (arith, sums f, h (λ x. f (subject x)), empty f)),
                  ),
            )

    move_on-Moved : (p : Phase W) → Others p → Moved t (move_on c on_result p others t)
    unfolding move_on work
    move_on-Moved (reports a e) h = locks-Moved a e h
    move_on-Moved (attempting job) h =
        worked-Moved (attempting job) (work c (attempting job) t.guarded) h
          (attempted-Nearer job (run_guarded job.run t.guarded).0)
    move_on-Moved (failed job gen e) h =
        worked-Moved (failed job gen e) (work c (failed job gen e) t.guarded) h
          (judged-Nearer job gen e (healthy c gen t.guarded).0)
    move_on-Moved (lost job gen e) h =
        worked-Moved (lost job gen e) (work c (lost job gen e) t.guarded) h
          (reconnected-Nearer job gen e (reconnect c gen t.guarded).0)
    move_on-Moved (again job) h =
        worked-Moved (again job) (work c (again job) t.guarded) h (omega arith, refl)

  module _ (t : Transfers W R) where
    advance-Moved :
        (n : ℕ) (before after : List (Phase W))
        → ((f : Phase W → ℕ) → sum_of f t.busy ≡ sum_of f before + sum_of f after)
        → Moved t (advance c on_result n before after t)
    unfolding advance
    advance-Moved n before [] h = tt
    advance-Moved zero before (p ∷ after) h =
        move_on-Moved (before ++ after) t p (λ f. omega (arith, h f, sum_of-append f before after))
    advance-Moved (suc n) before (p ∷ after) h =
        advance-Moved n (before ++ p ∷ []) after
          (λ f. omega (arith, h f, sum_of-append f before (p ∷ [])))

    send-Moved : Moved t (send_job c on_result t)
    send-Moved = send_job-Moved t.guarded t.jobs t.free t.busy t.result_mu t.result

    written-Moved : Moved t (report c on_result t)
    written-Moved = report-Moved t.guarded t.jobs t.free t.busy t.result_mu t.result

    busy-Moved : (n : ℕ) → Moved t (advance c on_result n [] t.busy t)
    busy-Moved n = advance-Moved n [] t.busy (λ f. omega arith)

    chosen-Moved : (n : ℕ) → Moved t (chosen c on_result n t)
    chosen-Moved zero = send-Moved
    chosen-Moved (suc zero) = written-Moved
    chosen-Moved (suc (suc n)) = busy-Moved n

    pub next-Moved : (n : ℕ) → Moved t (next c on_result n t)
    unfolding next
    next-Moved n = or_else-Moved t (chosen c on_result n t) _ (chosen-Moved n) (
        or_else-Moved t (report c on_result t) _ written-Moved
          (or_else-Moved t (send_job c on_result t) _ send-Moved (busy-Moved 0)))
