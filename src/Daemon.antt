-- ===== src/Daemon.antt =====
-- cmd/daemon.go: which profiles the daemon watches, at the start and when the configuration changes.
-- A profile is watched with a callback that queues the file under its name.
pub mod Watches
pub mod Settling
pub mod Reload
pub mod Tests
use sfync.Base.{Text, codes, Option, none, some, List, [], ◌∷◌, Bool, true, false}
use sfync.Base.{not, if◌then◌else◌, is_some, ◌==◌, nat_eq, text_eq}
use sfync.Base.Dict.{Dict, lookup, insert, erase}
use sfync.Config.{Profile}
use sfync.Ignore.{Matcher}
use sfync.Watcher.Watch.{Outside, Watcher, watch, unwatch}

-- What `handleConfigReload` changes: the watcher and the map `watching`.
pub record Watched : Type 0 where
  pub watcher : Watcher
  pub watching : Dict Text Profile

module _ (o : Outside) (glob : Matcher) where
  -- `Watch`, and the entry in `watching` if it succeeds.
  abbrev pub entered : Text → Profile → Watched → Bool × Watcher → Watched
  entered name p s (true, w) = record s { watcher = w; watching = insert name p s.watching }
  entered name p s (false, w) = record s { watcher = w }

  -- The loop at the start of `Daemon`.
  unfoldable pub begin_watching : Dict Text Profile → Watched → Watched
  unfolding watch insert text_eq nat_eq
  begin_watching [] s = s
  begin_watching ((name, p) ∷ profiles) s =
      if not p.auto_sync
      then begin_watching profiles s
      else if p.context == []
      then begin_watching profiles s
      else begin_watching profiles (entered name p s (watch o glob name p s.watcher))

  -- A watched profile that is gone, or has automatic sync off.
  abbrev pub stop_watching : Text → Watched → Watched
  stop_watching name s = record s {
    watcher = (unwatch o glob name s.watcher).1;
    watching = erase name s.watching;
  }

  -- A watched profile whose context changed: behind `Watch`, and behind `Unwatch`.
  abbrev pub restarted : Text → Profile → Watched → Bool × Watcher → Watched
  restarted name p s (true, w) = record s { watcher = w; watching = insert name p s.watching }
  restarted name p s (false, w) = record s { watcher = w; watching = erase name s.watching }

  abbrev pub restart : Text → Profile → Watched → Bool × Watcher → Watched
  restart name p s (true, w) = restarted name p s (watch o glob name p w)
  restart name p s (false, w) = record s { watcher = w }

  -- The first loop of `handleConfigReload`, on one watched profile.
  abbrev pub adjust : Text → Profile → Option Profile → Watched → Watched
  adjust name old none s = stop_watching name s
  adjust name old (some p) s =
      if not p.auto_sync
      then stop_watching name s
      else if not (p.context == old.context)
      then restart name p s (unwatch o glob name s.watcher)
      else record s { watching = insert name p s.watching }

  unfoldable pub adjust_all : Dict Text Profile → Dict Text Profile → Watched → Watched
  unfolding watch unwatch insert erase lookup text_eq nat_eq
  adjust_all profiles [] s = s
  adjust_all profiles ((name, old) ∷ rest) s =
      adjust_all profiles rest (adjust name old (lookup name profiles) s)

  -- The second loop, on one profile of the new configuration.
  abbrev pub start_one : Text → Profile → Watched → Watched
  start_one name p s =
      if not p.auto_sync
      then s
      else if is_some (lookup name s.watching)
      then s
      else if p.context == []
      then s
      else entered name p s (watch o glob name p s.watcher)

  unfoldable pub start_all : Dict Text Profile → Watched → Watched
  unfolding watch insert lookup text_eq nat_eq
  start_all [] s = s
  start_all ((name, p) ∷ profiles) s = start_all profiles (start_one name p s)

  -- `handleConfigReload` with the new profiles, as far as it is about watching.
  unfoldable pub handle_config_reload : Dict Text Profile → Watched → Watched
  unfolding adjust_all start_all
  handle_config_reload profiles s = start_all profiles (adjust_all profiles s.watching s)
