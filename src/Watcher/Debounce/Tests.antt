-- ===== src/Watcher/Debounce/Tests.antt =====
-- internal/watcher/debounce.go at a concrete run.
use sfync.Base.{◌≡◌, refl, inl, Text, codes, [], ◌∷◌, nat_eq, text_eq}
use sfync.Watcher.Debounce.{
  Timer, Debouncer, new_debouncer, add, stop_all, enter, adds, expires, enters, Reach, start, next,
}
use sfync.Watcher.Debounce.Owed.{Live, Reach-Live}

abbrev key : Text
key = codes "p:a"

-- A timer that expires, is replaced before it gets the mutex, and then enters.
abbrev one : Debouncer
one = add key new_debouncer

abbrev first_timer : Timer
first_timer = record { id = 0; key = key }

abbrev waiting : Debouncer
waiting = record one { running = []; expired = first_timer ∷ [] }

abbrev replaced : Debouncer
replaced = add key waiting

abbrev entered : Debouncer
entered = enter key (record replaced { expired = [] })

entered-Reach : Reach entered (key ∷ key ∷ [])
unfolding add new_debouncer enter
entered-Reach =
    next replaced entered (key ∷ key ∷ []) (key ∷ key ∷ [])
      (next waiting replaced (key ∷ []) (key ∷ key ∷ [])
        (next one waiting (key ∷ []) (key ∷ [])
          (next new_debouncer one [] (key ∷ []) start (adds new_debouncer [] key))
          (expires one (key ∷ []) [] first_timer [] refl))
        (adds waiting (key ∷ []) key))
      (enters replaced (key ∷ key ∷ []) [] first_timer [] refl)

Reach-Live_example : Live key entered
Reach-Live_example = Reach-Live entered (key ∷ key ∷ []) entered-Reach key (inl refl)

-- The newer timer is no longer in the map, so `StopAll` leaves it running.
stop_all_test : (stop_all entered).running ≡ record { id = 1; key = key } ∷ []
unfolding stop_all enter add new_debouncer text_eq nat_eq
stop_all_test = refl
