-- ===== src/Watcher/Notifier.antt =====
-- internal/watcher/notifier.go: which uploads and failures of the daemon are shown to the user. A
-- notification is data here, its wording left out. Times are nanoseconds since Go's zero time, and
-- `now` is what the clock says at the call.
pub mod Shown
pub mod Tests
use sfync.Base.{ℕ, ◌+◌, ◌-◌, ◌*◌, ◌%◌, Text, Option, none, some, List, [], ◌∷◌, Bool, true, false}
use sfync.Base.{◌&&◌, ◌||◌, leb, ltb, if◌then◌else◌, ◌==◌, nat_eq, text_eq}
use sfync.Base.Dict.{Dict, lookup, insert}
use sfync.Transfer.Types.{second}
use sfync.Transfer.Client.{Error}

abbrev pub batch_window : ℕ
batch_window = 30 * second

abbrev pub batch_threshold : ℕ
batch_threshold = 5

pub record Notifier : Type 0 where
  pub success_count : Dict Text ℕ
  pub last_notify_time : Dict Text ℕ
  pub error_count : Dict Text ℕ

unfoldable pub new_notifier : Notifier
new_notifier = record { success_count = []; last_notify_time = []; error_count = [] }

-- `m[k]` of a map to numbers or times.
abbrev pub or_zero : Option ℕ → ℕ
or_zero none = 0
or_zero (some v) = v

-- What `notify.Success` and `notify.Error` show: a file, or how many; a first failure, or how many.
pub data Notification : Type 0 where
  file_synced : Text → Text → Notification
  files_synced : ℕ → Text → Notification
  first_failure : Text → Text → Error → Notification
  failed_times : Text → ℕ → Error → Notification

-- The chain of tests of `NotifySuccess`.
unfoldable pub success_message : Text → Text → ℕ → ℕ → Option Notification
success_message profile rel_path count since =
    if count == 1
    then some (file_synced rel_path profile)
    else if leb batch_threshold count
    then some (files_synced count profile)
    else if leb batch_window since
    then some (files_synced count profile)
    else none

-- What is stored when a message is shown.
abbrev pub after_success : Text → ℕ → Option Notification → Notifier → Notifier
after_success profile now none n = n
after_success profile now (some _) n = record n {
  last_notify_time = insert profile now n.last_notify_time;
  success_count = insert profile 0 n.success_count;
}

-- `NotifySuccess`
unfoldable pub notify_success : Text → Text → ℕ → Notifier → Option Notification × Notifier
unfolding success_message lookup insert
notify_success profile rel_path now n =
    let count = or_zero (lookup profile n.success_count) + 1 in
    let counted = record n { success_count = insert profile count n.success_count } in
    let since = now - or_zero (lookup profile n.last_notify_time) in
    let message = success_message profile rel_path count since in
    (message, after_success profile now message counted)

-- The tests of `NotifyError`.
unfoldable pub shows_failure : ℕ → Bool
unfolding nat_eq
shows_failure count =
    if count == 1
    then true
    else if leb count 10 && count % 5 == 0
    then true
    else if ltb 10 count && count % 10 == 0
    then true
    else false

-- `NotifyError`
unfoldable pub notify_error : Text → Text → Error → Notifier → Option Notification × Notifier
unfolding shows_failure lookup insert
notify_error profile rel_path e n =
    let count = or_zero (lookup profile n.error_count) + 1 in
    let message : Notification =
      if count == 1 then first_failure rel_path profile e else failed_times rel_path count e in
    (
      if shows_failure count then some message else none,
      record n { error_count = insert profile count n.error_count },
    )

-- `ResetErrorCount`
unfoldable pub reset_error_count : Text → Notifier → Notifier
unfolding insert
reset_error_count profile n = record n { error_count = insert profile 0 n.error_count }

-- The calls that a notifier has had, the latest first. The daemon resets before it reports a
-- success.
pub data Call : Type 0 where
  success : Text → Text → ℕ → Call
  failure : Text → Text → Error → Call
  reset : Text → Call

abbrev pub perform : Call → Notifier → Notifier
perform (success profile rel_path now) n = (notify_success profile rel_path now n).1
perform (failure profile rel_path e) n = (notify_error profile rel_path e n).1
perform (reset profile) n = reset_error_count profile n

unfoldable pub run_calls : List Call → Notifier
unfolding notify_success notify_error reset_error_count new_notifier
run_calls [] = new_notifier
run_calls (c ∷ calls) = perform c (run_calls calls)
