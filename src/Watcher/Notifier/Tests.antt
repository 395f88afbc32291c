-- ===== src/Watcher/Notifier/Tests.antt =====
-- Runs of internal/watcher/notifier.go.
use sfync.Base.{
  ℕ, ◌%◌, ◌≡◌, ◌↔◌, ◌⊎◌, codes, some, none, List, [], ◌∷◌, true, false, is_some, nat_eq, text_eq,
}
use sfync.Transfer.Client.{Error, library}
use sfync.Watcher.Notifier.{
  file_synced, notify_success, notify_error, Call, success, failure, reset, run_calls,
}
use sfync.Watcher.Notifier.Shown.{run_calls_shows_each, notify_error-backoff}

abbrev refused : Error
refused =
    library (record { text = codes "refused"; not_exist = false; deadline = false; reply = none })

-- Two files one second apart, and four failures before them.
abbrev calls : List Call
calls =
    success (codes "p") (codes "b") 9_000_000_000
    ∷ success (codes "p") (codes "a") 8_000_000_000
    ∷ failure (codes "p") (codes "c") refused
    ∷ failure (codes "p") (codes "c") refused
    ∷ failure (codes "p") (codes "c") refused
    ∷ failure (codes "p") (codes "c") refused
    ∷ reset (codes "p")
    ∷ []

run_calls_shows_each_example :
    (notify_success (codes "p") (codes "d") 9_500_000_000 (run_calls calls)).0
    ≡ some (file_synced (codes "d") (codes "p"))
run_calls_shows_each_example = run_calls_shows_each calls (codes "p") (codes "d") 9_500_000_000

notify_error-backoff_example :
    (is_some (notify_error (codes "p") (codes "c") refused (run_calls calls)).0 ≡ true)
    ↔ ((◌≡◌ {A = ℕ} 5 1) ⊎ (◌≡◌ {A = ℕ} 5 5) ⊎ (5 % 10 ≡ 0))
unfolding text_eq nat_eq
notify_error-backoff_example = notify_error-backoff calls (codes "p") (codes "c") refused
