-- ===== src/Watcher/Notifier/Shown.antt =====
-- internal/watcher/notifier.go: which notifications are shown.
use sfync.Base.{ℕ, ◌+◌, ◌%◌, ◌≡◌, refl, ◌↔◌, ◌⊎◌, Text, none, some, List, [], ◌∷◌}
use sfync.Base.{Bool, true, false, is_some, if◌then◌else◌, ◌==◌, nat_eq, text_eq, arith}
use sfync.Base.Dict.{lookup, insert, lookup-insert}
use sfync.Transfer.Client.{Error}
use sfync.Watcher.Notifier.{
  Notifier, new_notifier, or_zero, Notification, file_synced, success_message, notify_success,
  shows_failure, notify_error, Call, success, failure, reset, run_calls,
}

-- No success waits for a later notification.
abbrev NoneWaits : Notifier → Type 0
NoneWaits n = (k : Text) → or_zero (lookup k n.success_count) ≡ 0

success-NoneWaits :
    (profile rel_path : Text) (now : ℕ) (n : Notifier)
    → NoneWaits n
    → NoneWaits (notify_success profile rel_path now n).1
unfolding notify_success success_message
success-NoneWaits profile rel_path now n h k =
    let c : ℕ = or_zero (lookup profile n.success_count) + 1 in
    ground (
      arith,
      h k,
      h profile,
      lookup-insert k profile c n.success_count,
      lookup-insert k profile 0 (insert profile c n.success_count),
    )

run_calls-NoneWaits : (calls : List Call) → NoneWaits (run_calls calls)
unfolding run_calls new_notifier lookup
run_calls-NoneWaits [] k = refl
run_calls-NoneWaits (success profile rel_path now ∷ calls) k =
    success-NoneWaits profile rel_path now (run_calls calls) (run_calls-NoneWaits calls) k
run_calls-NoneWaits (failure profile rel_path e ∷ calls) k = run_calls-NoneWaits calls k
run_calls-NoneWaits (reset profile ∷ calls) k = run_calls-NoneWaits calls k

-- After any calls, a success is shown at once and alone: no successes are ever put together.
pub run_calls_shows_each :
    (calls : List Call) (profile rel_path : Text) (now : ℕ)
    → (notify_success profile rel_path now (run_calls calls)).0
      ≡ some (file_synced rel_path profile)
unfolding notify_success success_message
run_calls_shows_each calls profile rel_path now = ground (arith, run_calls-NoneWaits calls profile)

-- How many failures of a profile were reported since its errors were reset last.
abbrev pub failures_since_reset : Text → List Call → ℕ
failures_since_reset k [] = 0
failures_since_reset k (success _ _ _ ∷ calls) = failures_since_reset k calls
failures_since_reset k (failure profile _ _ ∷ calls) =
    let rest = failures_since_reset k calls in if k == profile then rest + 1 else rest
failures_since_reset k (reset profile ∷ calls) =
    let rest = failures_since_reset k calls in if k == profile then 0 else rest

run_calls-failures :
    (calls : List Call) (k : Text)
    → or_zero (lookup k (run_calls calls).error_count) ≡ failures_since_reset k calls
unfolding run_calls new_notifier lookup
run_calls-failures [] k = refl
run_calls-failures (success profile rel_path now ∷ calls) k =
    let same = run_calls-failures calls k in ground arith
run_calls-failures (failure profile rel_path e ∷ calls) k = ground (
  arith,
  run_calls-failures calls k,
  run_calls-failures calls profile,
  lookup-insert k profile (or_zero (lookup profile (run_calls calls).error_count) + 1)
      (run_calls calls).error_count,
)
run_calls-failures (reset profile ∷ calls) k =
    ground
      (arith, run_calls-failures calls k, lookup-insert k profile 0 (run_calls calls).error_count)

shows_failure_iff : (k : ℕ) → (shows_failure k ≡ true) ↔ ((k ≡ 1) ⊎ (k ≡ 5) ⊎ (k % 10 ≡ 0))
unfolding shows_failure
shows_failure_iff k = (λ h. ground arith, λ h. ground arith)

notify_error-shows :
    (profile rel_path : Text) (e : Error) (n : Notifier)
    → is_some (notify_error profile rel_path e n).0
      ≡ shows_failure (or_zero (lookup profile n.error_count) + 1)
unfolding notify_error
notify_error-shows profile rel_path e n =
    pick (shows_failure (or_zero (lookup profile n.error_count) + 1)) _
  where
    pick : (b : Bool) (m : Notification) → is_some (if b then some m else none) ≡ b
    pick true m = refl
    pick false m = refl

-- After any calls, a failure is shown exactly when it is the first, the fifth or a multiple of the
-- tenth of its profile since the last reset.
pub notify_error-backoff :
    (calls : List Call) (profile rel_path : Text) (e : Error)
    → let k = failures_since_reset profile calls + 1 in
      (is_some (notify_error profile rel_path e (run_calls calls)).0 ≡ true)
      ↔ ((k ≡ 1) ⊎ (k ≡ 5) ⊎ (k % 10 ≡ 0))
notify_error-backoff calls profile rel_path e =
    rw (notify_error-shows profile rel_path e (run_calls calls), run_calls-failures calls profile)
      (shows_failure_iff (failures_since_reset profile calls + 1))
