-- ===== src/Transfer/ConnPool/Run.antt =====
-- The goroutines around a pool of internal/transfer/connpool.go: each step is one stretch of a
-- goroutine under the lock.
use sfync.Base.{ℕ, ◌<◌, ◌≡◌, ◌+◌, ◌-◌, Text, Option, none, some, List, [], ◌∷◌, ◌++◌}
use sfync.Base.{Bool, true, false, count, remove}
use sfync.Transfer.ConnPool.{
  ConnPool, new_conn_pool, seed, Pass, got, acquire_pass, dial_made, dial_failed, release,
  try_acquire_idle, close_all,
}

-- The pool with what the goroutines hold: the connections leased by `acquire`, the dials under
-- way, the connections that were closed (for good), how many there ever were, and how often `onCap`
-- was called.
pub record System : Type 0 where
  pub pool : ConnPool
  pub leased : List ℕ
  pub dials : ℕ
  pub gone : List ℕ
  pub made : ℕ
  pub caps : ℕ

-- A pool as `Connect` of the clients leaves it: empty, or with the first connection in it.
unfoldable pub init : ℕ → System
unfolding new_conn_pool
init limit = record {
  pool = new_conn_pool limit;
  leased = [];
  dials = 0;
  gone = [];
  made = 0;
  caps = 0;
}

unfoldable pub init_seeded : ℕ → ℕ → System
unfolding init seed
init_seeded limit c = record (init limit) { pool = seed c (new_conn_pool limit); made = 1 }

-- What a goroutine holds after a pass of `acquire`.
abbrev pub lease : Pass → List ℕ → List ℕ
lease (got c) l = c ∷ l
lease _ l = l

abbrev pub dials_after : Pass → ℕ → ℕ
dials_after Pass.dials n = n + 1
dials_after _ n = n

abbrev pub lease_idle : Option ℕ → List ℕ → List ℕ
lease_idle none l = l
lease_idle (some c) l = c ∷ l

-- A connection that the pool turns down is closed.
abbrev pub discard : Pass → ℕ → List ℕ → List ℕ
discard (got _) c l = l
discard _ c l = c ∷ l

abbrev pub discard_if : Bool → ℕ → List ℕ → List ℕ
discard_if true c l = c ∷ l
discard_if false c l = l

abbrev pub add_cap : Option ℕ → ℕ → ℕ
add_cap none n = n
add_cap (some _) n = n + 1

-- A number that no connection has had.
abbrev pub IsFresh : ℕ → System → Type 0
IsFresh c s = (count c s.pool.idle ≡ 0) × (count c s.leased ≡ 0) × (count c s.gone ≡ 0)

pub data Step (s : System) : System → Type 0 where
  -- A pass of `acquire`, from the top of its loop, new or after a wait.
  pass :
      (waited : Bool)
      → Step s (
          let r = acquire_pass waited s.pool in
          record s { pool = r.1; leased = lease r.0 s.leased; dials = dials_after r.0 s.dials })
  made_it :
      (c : ℕ)
      → 0 < s.dials
      → IsFresh c s
      → Step s (
          let r = dial_made c s.pool in
          record s {
            pool = r.1;
            leased = lease r.0 s.leased;
            dials = s.dials - 1;
            gone = discard r.0 c s.gone;
            made = s.made + 1;
          })
  failed :
      (e : Text)
      → 0 < s.dials
      → Step s (
          let r = dial_failed e s.pool in
          record s { pool = r.1; dials = s.dials - 1; caps = add_cap r.2 s.caps })
  releases :
      (c : ℕ) (broken : Bool)
      → 0 < count c s.leased
      → Step s (
          let r = release c broken s.pool in
          record s { pool = r.1; leased = remove c s.leased; gone = discard_if r.0 c s.gone })
  tries :
      Step s (
        let r = try_acquire_idle s.pool in
        record s { pool = r.2; leased = lease_idle r.0 s.leased })
  closes : Step s (let r = close_all s.pool in record s { pool = r.1; gone = r.0 ++ s.gone })

pub data Reach (limit : ℕ) : System → Type 0 where
  empty : Reach limit (init limit)
  seeded : (c : ℕ) → Reach limit (init_seeded limit c)
  next : {s t : System} → Reach limit s → Step s t → Reach limit t
