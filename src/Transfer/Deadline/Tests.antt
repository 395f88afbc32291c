-- ===== src/Transfer/Deadline/Tests.antt =====
-- Runs of internal/transfer/deadline.go.
use sfync.Base.{refl, nat_eq}
use sfync.Base.Dict.{lookup}
use sfync.Transfer.Deadline.{
  DeadlineTracker, new_deadline_tracker, begin, finish_id, Reach, start, next, begins, ends,
}
use sfync.Transfer.Deadline.Cover.{Covers, Reach-Covers}

-- Two operations begin, and the one with the later deadline ends.
abbrev one_left : DeadlineTracker
one_left = finish_id 0 (begin 10 5 (begin 10 60 new_deadline_tracker).1).1

one_left-Reach : Reach one_left
unfolding new_deadline_tracker begin finish_id lookup nat_eq
one_left-Reach = next (next (next start (begins 10 60)) (begins 10 5)) (ends 0 70 refl)

Reach-Covers_example : Covers one_left
Reach-Covers_example = Reach-Covers one_left-Reach
