-- ===== src/Transfer/Pool.antt =====
-- internal/transfer/pool.go: one connection for each profile, shared through leases. Entries are
-- shared by reference, so they stand in a store under numbers, and the map of the pool holds the
-- numbers. Each function here is one stretch under `p.mu`; Pool.Run lets goroutines interleave.
-- A client that dials is the number that its entry will have. Times are nanoseconds, 0 is Go's
-- zero time, and `now` is an argument.
pub mod Run
pub mod Retire
pub mod Leases
pub mod Stale
pub mod Tests
use sfync.Base.{ℕ, zero, suc, ◌+◌, ◌-◌, ◌*◌, Text, Option, none, some, List, [], ◌∷◌, Bool, true}
use sfync.Base.{false, ◌&&◌, ◌||◌, not, ltb, if◌then◌else◌, ◌==◌, nat_eq, text_eq, bool_eq}
use sfync.Base.{ℤ, pos, negsuc, ℤ_eq}
use sfync.Base.Dict.{Dict, lookup, insert, erase}
use sfync.Config.{Profile, Profiles}
use sfync.Transfer.Types.{second}

abbrev pub fresh_for : ℕ
fresh_for = 10 * second

-- `poolEntry`. The last two are not in the program: `closes` counts the calls of `client.Close`, and
-- `owner` is the name that the entry was made for.
pub record PoolEntry : Type 0 where
  pub users : ℕ
  pub retired : Bool
  pub last_ok : ℕ
  pub closes : ℕ
  pub owner : Text

pub record ConnectionPool : Type 0 where
  pub connections : Dict Text ℕ
  pub profiles : Profiles
  pub entries : ℕ → PoolEntry
  pub next_entry : ℕ

abbrev pub no_entry : PoolEntry
no_entry = record { users = 0; retired = false; last_ok = 0; closes = 0; owner = [] }

unfoldable pub new_connection_pool : Profiles → ConnectionPool
new_connection_pool ps = record {
  connections = [];
  profiles = ps;
  entries = λ e. no_entry;
  next_entry = 0;
}

abbrev pub put : ℕ → PoolEntry → (ℕ → PoolEntry) → ℕ → PoolEntry
put e x m d = if d == e then x else m d

-- A write to the entry `e`.
abbrev pub set_entry : ℕ → PoolEntry → ConnectionPool → ConnectionPool
set_entry e x p = record p { entries = put e x p.entries }

-- The connection that may be leased under a name.
unfoldable pub current : Text → ConnectionPool → Option ℕ
unfolding lookup
current name p = elim (lookup name p.connections) [
  | none ↦ none
  | some e ↦ if not (p.entries e).retired then some e else none
]

unfoldable pub add_user : ℕ → ConnectionPool → ConnectionPool
add_user e p = let x = p.entries e in set_entry e (record x { users = x.users + 1 }) p

-- `time.Since(e.lastOK) < freshFor`
unfoldable pub is_fresh : ℕ → PoolEntry → Bool
is_fresh now x = ltb (now - x.last_ok) fresh_for

-- The first part of `Acquire`: the entry that is leased, and whether it is trusted without a probe.
unfoldable pub acquire_shared : Text → ℕ → ConnectionPool → Option (ℕ × Bool) × ConnectionPool
unfolding current add_user is_fresh
acquire_shared name now p = elim (current name p) [
  | none ↦ (none, p)
  | some e ↦ (some (e, is_fresh now (p.entries e)), add_user e p)
]

-- The probe has answered.
unfoldable pub probe_alive : ℕ → Bool → ℕ → ConnectionPool → ConnectionPool
probe_alive e fresh now p =
    if not fresh then set_entry e (record (p.entries e) { last_ok = now }) p else p

-- Closing a client.
abbrev pub close_if : Bool → PoolEntry → PoolEntry
close_if true x = record x { closes = x.closes + 1 }
close_if false x = x

-- `releaseLocked`. The flag says that the work went well.
unfoldable pub release_locked : ℕ → Bool → ℕ → ConnectionPool → ConnectionPool
unfolding nat_eq
release_locked e good now p =
    let x = p.entries e in
    let y = record x { users = x.users - 1; last_ok = if good then now else 0 } in
    set_entry e (close_if (y.retired && y.users == 0) y) p

-- `retire`
unfoldable pub unlist : Text → ℕ → ConnectionPool → ConnectionPool
unfolding lookup erase
unlist name e p = elim (lookup name p.connections) [
  | none ↦ p
  | some d ↦ if d == e then record p { connections = erase name p.connections } else p
]

unfoldable pub retire : Text → ℕ → ConnectionPool → ConnectionPool
unfolding unlist
retire name e p =
    let q = unlist name e p in
    let x = q.entries e in
    if not x.retired
    then set_entry e (close_if (x.users == 0) (record x { retired = true })) q
    else q

-- The probe has failed: the entry is retired and the lease given back.
unfoldable pub probe_dead : Text → ℕ → ℕ → ConnectionPool → ConnectionPool
unfolding retire release_locked
probe_dead name e now p = release_locked e true now (retire name e p)

-- The middle of `Acquire`: the profile to dial with; none is the error for an unknown profile.
unfoldable pub profile_for : Text → ConnectionPool → Option Profile
profile_for name p = lookup name p.profiles

-- The end of `Acquire`, after a successful dial with a profile: the entry that is leased. If
-- another caller was faster, the new client is closed and never has an entry.
unfoldable pub dialed : Text → Profile → ℕ → ConnectionPool → ℕ × ConnectionPool
unfolding current add_user insert
dialed name profile now p = elim (current name p) [
  | some e ↦ (e, add_user e p)
  | none ↦ (
    p.next_entry,
    record p {
      connections = insert name p.next_entry p.connections;
      entries =
          put p.next_entry
            (record { users = 1; retired = false; last_ok = now; closes = 0; owner = name })
            p.entries;
      next_entry = p.next_entry + 1;
    },
  )
]

-- `verify` of `profileChanged`: nil counts as true.
abbrev pub verify : Option Bool → Bool
verify none = true
verify (some b) = b

unfoldable pub profile_changed : Profile → Profile → Bool
profile_changed old new =
    not (old.host == new.host)
    || (not (old.port == new.port)
        || (not (old.username == new.username)
            || (not (old.password == new.password)
                || (not (old.ssh_key == new.ssh_key)
                    || (not (old.protocol == new.protocol)
                        || (not (old.ftp_connections == new.ftp_connections)
                            || (not (old.tls_ca_cert == new.tls_ca_cert)
                                || not (
                                    verify old.verify_host_key == verify new.verify_host_key))))))))

abbrev pub outdated : Profile → Option Profile → Bool
outdated old none = true
outdated old (some new) = profile_changed old new

abbrev pub retire_listed : Text → Option ℕ → ConnectionPool → ConnectionPool
retire_listed name none p = p
retire_listed name (some e) p = retire name e p

-- The loop of `UpdateProfiles` over the old profiles.
unfoldable pub retire_outdated : Profiles → Profiles → ConnectionPool → ConnectionPool
retire_outdated new [] p = p
retire_outdated new ((name, old) ∷ olds) p =
    retire_outdated new olds (
      if outdated old (lookup name new)
      then retire_listed name (lookup name p.connections) p
      else p)

unfoldable pub update_profiles : Profiles → ConnectionPool → ConnectionPool
update_profiles new p = record (retire_outdated new p.profiles p) { profiles = new }

-- The loop of `CloseAll`.
unfoldable pub close_entries : Dict Text ℕ → ConnectionPool → ConnectionPool
close_entries [] p = p
close_entries ((name, e) ∷ m) p =
    close_entries m (set_entry e (close_if true (record (p.entries e) { retired = true })) p)

unfoldable pub close_all : ConnectionPool → ConnectionPool
close_all p = record (close_entries p.connections p) { connections = [] }
