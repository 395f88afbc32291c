-- ===== src/Transfer/Pool/Tests.antt =====
-- Runs of the pool of internal/transfer/pool.go.
use sfync.Base.{
  ◌<◌, ◌≡◌, refl, codes, none, some, [], ◌∷◌, arith, true, false, nat_eq, text_eq, bool_eq, ℤ_eq,
  count, pos,
}
use sfync.Base.Dict.{lookup, insert}
use sfync.Config.{Profile, Profiles, sftp}
use sfync.Transfer.Pool.{
  ConnectionPool, new_connection_pool, current, dialed, update_profiles, add_user, acquire_shared,
  no_entry,
}
use sfync.Transfer.Pool.Run.{System, shares, connects, Reach, start, next}
use sfync.Transfer.Pool.Leases.{Books, Reach-Books}
use sfync.Transfer.Pool.Stale.{Same, lookup-update_profiles}

abbrev site : Profile
site = record {
  host = codes "a";
  username = codes "u";
  password = codes "p";
  ssh_key = [];
  port = pos 22;
  protocol = sftp;
  remote_path = codes "/w";
  context = codes "/c";
  auto_sync = true;
  auto_sync_debounce = pos 2000;
  auto_sync_deletes = false;
  verify_host_key = none;
  ftp_connections = pos 0;
  tls_ca_cert = [];
}

abbrev moved : Profile
moved = record site { host = codes "b" }

abbrev before : Profiles
before = (codes "s", site) ∷ []

abbrev after : Profiles
after = (codes "s", moved) ∷ []

-- One connection, leased twice.
shared : (s : System) × Reach before s × (0 < count 0 s.leases)
unfolding new_connection_pool dialed current lookup text_eq nat_eq insert acquire_shared add_user
shared =
    (_, next (next start (connects (codes "s") site 100)) (shares (codes "s") 200), omega arith)

Reach-Books_example : Books shared.0
Reach-Books_example = Reach-Books shared.1

-- The pool at the start, and with a connection under the name.
abbrev at_start : ConnectionPool
at_start = record { connections = []; profiles = before; entries = λ e. no_entry; next_entry = 0 }

abbrev connected : ConnectionPool
connected = record at_start { connections = (codes "s", 0) ∷ []; next_entry = 1 }

-- One name keeps its profile, the other one moves.
abbrev two_before : Profiles
two_before = (codes "s", site) ∷ (codes "t", site) ∷ []

abbrev two_after : Profiles
two_after = (codes "s", moved) ∷ (codes "t", site) ∷ []

abbrev two_connected : ConnectionPool
two_connected = record at_start {
  profiles = two_before;
  connections = (codes "s", 0) ∷ (codes "t", 1) ∷ [];
  next_entry = 2;
}

lookup-update_profiles_example :
    (Same site moved
      → lookup (codes "s") (update_profiles two_after two_connected).connections ≡ some 0)
    × (¬ Same site moved
        → lookup (codes "s") (update_profiles two_after two_connected).connections ≡ none)
unfolding lookup text_eq nat_eq
lookup-update_profiles_example =
    lookup-update_profiles two_after two_connected (codes "s") (refl, (refl, tt))
