-- ===== src/Watcher/Debounce.antt =====
-- internal/watcher/debounce.go: the debouncer, whose timers run on their own. What the mutex guards is
-- one step; a timer that has expired waits for the mutex, and then calls its callback without it.
-- How long a timer runs is left open.
pub mod Sound
pub mod Owed
pub mod Tests
use sfync.Base.{
  ℕ, ◌+◌, ◌≡◌, Text, codes, Option, none, some, List, [], ◌∷◌, ◌++◌, Bool, true, false,
  if◌then◌else◌, ◌==◌, nat_eq, text_eq,
}
use sfync.Base.Dict.{Dict, lookup, insert, erase}
use sfync.Watcher.Watch.{without}

-- A timer of time.AfterFunc.
pub record Timer : Type 0 where
  pub id : ℕ
  pub key : Text

-- `Debouncer`: its map; the timers that run, those that wait for the mutex, and the keys whose
-- callback is about to be called; and the number of timers made.
pub record Debouncer : Type 0 where
  pub timers : Dict Text ℕ
  pub running : List Timer
  pub expired : List Timer
  pub calling : List Text
  pub made : ℕ

unfoldable pub new_debouncer : Debouncer
new_debouncer = record { timers = []; running = []; expired = []; calling = []; made = 0 }

-- `timer.Stop()`, which does nothing to a timer that has expired.
unfoldable pub stop_id : ℕ → List Timer → List Timer
unfolding nat_eq
stop_id id [] = []
stop_id id (t ∷ l) = let rest = stop_id id l in if t.id == id then rest else t ∷ rest

abbrev pub stop_timer : Option ℕ → List Timer → List Timer
stop_timer none running = running
stop_timer (some id) running = stop_id id running

-- `Add`
unfoldable pub add : Text → Debouncer → Debouncer
unfolding stop_id lookup insert
add key d = record d {
  timers = insert key d.made d.timers;
  running = record { id = d.made; key = key } ∷ stop_timer (lookup key d.timers) d.running;
  made = d.made + 1;
}

abbrev pub stop_found : Text → Option ℕ → Debouncer → Debouncer
stop_found key none d = d
stop_found key (some id) d = record d {
  timers = erase key d.timers;
  running = stop_id id d.running;
}

-- `Stop`
unfoldable pub stop : Text → Debouncer → Debouncer
unfolding stop_id lookup erase
stop key d = stop_found key (lookup key d.timers) d

-- The loop of `StopAll`.
unfoldable pub stop_each : Dict Text ℕ → List Timer → List Timer
unfolding stop_id
stop_each [] running = running
stop_each ((key, id) ∷ timers) running = stop_each timers (stop_id id running)

-- `StopAll`
unfoldable pub stop_all : Debouncer → Debouncer
unfolding stop_each
stop_all d = record d { timers = []; running = stop_each d.timers d.running }

-- What an expired timer does with the mutex.
unfoldable pub enter : Text → Debouncer → Debouncer
unfolding erase
enter key d = record d { timers = erase key d.timers; calling = key ∷ d.calling }

-- The abstract view: the keys that are owed a call of their callback, in a list that may name one
-- several times. `Add` owes one, a call pays all that the key is owed, and stopping forgives.
pub data Step : Debouncer → List Text → Debouncer → List Text → Type 0 where
  adds : (d : Debouncer) (owed : List Text) (key : Text) → Step d owed (add key d) (key ∷ owed)
  expires :
      (d : Debouncer) (owed : List Text) (xs : List Timer) (t : Timer) (ys : List Timer)
      → d.running ≡ xs ++ (t ∷ ys)
      → Step d owed (record d { running = xs ++ ys; expired = t ∷ d.expired }) owed
  enters :
      (d : Debouncer) (owed : List Text) (xs : List Timer) (t : Timer) (ys : List Timer)
      → d.expired ≡ xs ++ (t ∷ ys)
      → Step d owed (enter t.key (record d { expired = xs ++ ys })) owed
  calls :
      (d : Debouncer) (owed : List Text) (xs : List Text) (key : Text) (ys : List Text)
      → d.calling ≡ xs ++ (key ∷ ys)
      → Step d owed (record d { calling = xs ++ ys }) (without key owed)
  stops :
      (d : Debouncer) (owed : List Text) (key : Text) → Step d owed (stop key d) (without key owed)
  stops_all : (d : Debouncer) (owed : List Text) → Step d owed (stop_all d) []

pub data Reach : Debouncer → List Text → Type 0 where
  start : Reach new_debouncer []
  next :
      (d d' : Debouncer) (owed owed' : List Text)
      → Reach d owed
      → Step d owed d' owed'
      → Reach d' owed'
