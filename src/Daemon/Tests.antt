-- ===== src/Daemon/Tests.antt =====
-- cmd/daemon.go at two configurations.
use sfync.Base.{arith, ◌≡◌, refl, Text, codes, [], ◌∷◌, true, false, nat_eq, text_eq}
use sfync.Base.Dict.{Dict, NodupKeys, lookup, insert, erase, lookup-nil}
use sfync.Base.Paths.{clean}
use sfync.Config.{Profile}
use sfync.Transfer.Mirror.Sync.Tests.{glob}
use sfync.Watcher.Watch.{new_watcher, watch, unwatch}
use sfync.Watcher.Watch.Tests.{outside, whole, web}
use sfync.Daemon.{Watched, handle_config_reload}
use sfync.Daemon.Settling.{Agrees, Follows}
use sfync.Daemon.Reload.{handle_config_reload-Follows}

abbrev before : Dict Text Profile
before =
    (codes "web", record web { auto_sync = true })
    ∷ (codes "project", record whole { auto_sync = true })
    ∷ []

-- The context of one profile changed; the other has automatic sync off.
abbrev now : Dict Text Profile
now =
    (codes "web", record web { auto_sync = true; context = codes "/q" })
    ∷ (codes "project", record whole { auto_sync = false })
    ∷ []

abbrev idle : Watched
idle = record { watcher = new_watcher; watching = [] }

abbrev running : Watched
running = handle_config_reload outside glob before idle

before-NodupKeys : NodupKeys before
unfolding lookup text_eq nat_eq
before-NodupKeys = (refl, (refl, tt))

now-NodupKeys : NodupKeys now
unfolding lookup text_eq nat_eq
now-NodupKeys = (refl, (refl, tt))

running-NodupKeys : NodupKeys running.watching
unfolding handle_config_reload lookup insert watch new_watcher text_eq nat_eq
running-NodupKeys = (refl, (refl, tt))

idle-Agrees : Agrees idle
idle-Agrees j p found = absurd (ground (arith, lookup-nil {V = Profile} j))

handle_config_reload-Follows_example :
    Agrees (handle_config_reload outside glob now running)
    × Follows now (handle_config_reload outside glob now running)
handle_config_reload-Follows_example =
    handle_config_reload-Follows outside glob now running now-NodupKeys running-NodupKeys
      (handle_config_reload-Follows outside glob before idle before-NodupKeys tt idle-Agrees).0

reload_test :
    (handle_config_reload outside glob now running).watching
    ≡ (codes "web", record web { auto_sync = true; context = codes "/q" }) ∷ []
unfolding handle_config_reload lookup insert erase watch unwatch clean new_watcher text_eq nat_eq
reload_test = refl
