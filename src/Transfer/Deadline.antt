-- ===== src/Transfer/Deadline.antt =====
-- internal/transfer/deadline.go: the deadline that the operations of a connection share. A call of
-- `begin`, or of the function that it returns, is one step, since each holds the lock.
pub mod Cover
pub mod Tests
use sfync.Base.{ℕ, ◌+◌, ◌≡◌, Option, some, List, [], ◌∷◌, if◌then◌else◌, ltb, ◌==◌, nat_eq}
use sfync.Base.Dict.{Dict, lookup, insert, erase}

-- `deadline` is what the connection was last told; 0 is Go's zero time, and clears it.
pub record DeadlineTracker : Type 0 where
  pub active : Dict ℕ ℕ
  pub next_id : ℕ
  pub deadline : ℕ

unfoldable pub new_deadline_tracker : DeadlineTracker
new_deadline_tracker = record { active = []; next_id = 0; deadline = 0 }

-- The loop of `apply`.
unfoldable pub latest_from : ℕ → Dict ℕ ℕ → ℕ
latest_from latest [] = latest
latest_from latest ((id, dl) ∷ active) = latest_from (if ltb latest dl then dl else latest) active

unfoldable pub apply : DeadlineTracker → DeadlineTracker
unfolding latest_from
apply t = record t { deadline = latest_from 0 t.active }

-- `begin(d)` at the time `now`: the id, and the tracker.
unfoldable pub begin : ℕ → ℕ → DeadlineTracker → ℕ × DeadlineTracker
unfolding apply insert
begin now d t = (
  t.next_id,
  apply (record t { active = insert t.next_id (now + d) t.active; next_id = t.next_id + 1 }),
)

-- The first call of the function that `begin` returns; `once` makes later calls do nothing.
unfoldable pub finish_id : ℕ → DeadlineTracker → DeadlineTracker
unfolding apply erase
finish_id id t = apply (record t { active = erase id t.active })

pub data Step (t : DeadlineTracker) : DeadlineTracker → Type 0 where
  begins : (now d : ℕ) → Step t (begin now d t).1
  ends : (id dl : ℕ) → lookup id t.active ≡ some dl → Step t (finish_id id t)

pub data Reach : DeadlineTracker → Type 0 where
  start : Reach new_deadline_tracker
  next : {t t' : DeadlineTracker} → Reach t → Step t t' → Reach t'
