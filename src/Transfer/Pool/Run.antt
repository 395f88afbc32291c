-- ===== src/Transfer/Pool/Run.antt =====
-- The goroutines around the pool of internal/transfer/pool.go: each step is one stretch of a
-- goroutine under `p.mu`.
use sfync.Base.{ℕ, ◌<◌, ◌≡◌, Text, Option, none, some, List, [], ◌∷◌, Bool, count, remove}
use sfync.Config.{Profile, Profiles}
use sfync.Transfer.Pool.{
  ConnectionPool, new_connection_pool, acquire_shared, probe_alive, probe_dead, dialed,
  release_locked, update_profiles, close_all,
}

-- The pool, and the entries that are leased, each as often as it is. `release` is guarded by a
-- `sync.Once`, so a lease ends once.
pub record System : Type 0 where
  pub pool : ConnectionPool
  pub leases : List ℕ

abbrev pub lease_shared : Option (ℕ × Bool) → List ℕ → List ℕ
lease_shared none l = l
lease_shared (some (e, _)) l = e ∷ l

pub data Step (s : System) : System → Type 0 where
  -- `Acquire` up to the probe, or to the dial where there is nothing to share.
  shares :
      (name : Text) (now : ℕ)
      → Step s (
          let r = acquire_shared name now s.pool in
          record { pool = r.1; leases = lease_shared r.0 s.leases })
  alive :
      (e : ℕ) (fresh : Bool) (now : ℕ)
      → 0 < count e s.leases
      → Step s (record s { pool = probe_alive e fresh now s.pool })
  -- The entry was found under the name that it was made for (see `Inv.listed`).
  dead :
      (e now : ℕ)
      → 0 < count e s.leases
      → Step s (record {
        pool = probe_dead (s.pool.entries e).owner e now s.pool;
        leases = remove e s.leases;
      })
  connects :
      (name : Text) (profile : Profile) (now : ℕ)
      → Step s
          (let r = dialed name profile now s.pool in record { pool = r.1; leases = r.0 ∷ s.leases })
  releases :
      (e : ℕ) (good : Bool) (now : ℕ)
      → 0 < count e s.leases
      → Step s (record { pool = release_locked e good now s.pool; leases = remove e s.leases })
  updates : (new : Profiles) → Step s (record s { pool = update_profiles new s.pool })
  -- "Used during shutdown, after users have stopped."
  closes : s.leases ≡ [] → Step s (record s { pool = close_all s.pool })

pub data Reach (ps : Profiles) : System → Type 0 where
  start : Reach ps (record { pool = new_connection_pool ps; leases = [] })
  next : {s t : System} → Reach ps s → Step s t → Reach ps t
