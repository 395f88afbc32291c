-- ===== src/Transfer/ConnPool/Accounts.antt =====
-- The books of a pool of internal/transfer/connpool.go: who has each connection, and how many
-- there are.
use sfync.Base.{ℕ, max, ◌≤◌, ◌≡◌, ◌+◌, []}
use sfync.Base.{true, if◌then◌else◌, length, count, arith}
use sfync.Base.{count-remove, length-remove, count-append, length-append, nat_eq}
use sfync.Transfer.ConnPool.{
  acquire_pass, dial_made, dial_failed, release, try_acquire_idle, close_all,
}
use sfync.Transfer.ConnPool.Run.{
  System, init, init_seeded, Step, pass, made_it, failed, releases, tries, closes, Reach, empty,
  seeded, next,
}

-- How often a connection stands in the books.
abbrev pub places : ℕ → System → ℕ
places c s = count c s.pool.idle + count c s.leased + count c s.gone

pub record Inv (limit : ℕ) (s : System) : Type 0 where
  pub opened : s.pool.open_count ≡ length s.pool.idle + length s.leased + s.dials
  pub dialed : s.pool.dialing ≡ s.dials
  pub floor : 1 ≤ s.pool.limit
  pub ceiling : s.pool.open_count ≤ s.pool.limit
  pub lowered : s.pool.limit ≤ max limit 1
  pub shut : s.pool.closed ≡ true → s.pool.idle ≡ []
  pub total : length s.pool.idle + length s.leased + length s.gone ≡ s.made
  pub told_once : s.caps ≡ (if s.pool.capped then 1 else 0)

-- No connection is in two places.
abbrev pub Single : System → Type 0
Single s = (c : ℕ) → places c s ≤ 1

Step-Inv : (limit : ℕ) {s t : System} → Step s t → Inv limit s → Inv limit t
unfolding acquire_pass dial_made dial_failed release try_acquire_idle close_all
Step-Inv limit {s = s} (pass w) i = ground arith
Step-Inv limit {s = s} (made_it c h f) i = ground arith
Step-Inv limit {s = s} (failed e h) i = ground arith
Step-Inv limit {s = s} (releases c b h) i = ground (arith, length-remove c s.leased h)
Step-Inv limit {s = s} tries i = ground arith
Step-Inv limit {s = s} closes i = ground (arith, length-append s.pool.idle s.gone)

Step-Single : {s t : System} → Step s t → Single s → Single t
unfolding acquire_pass dial_made dial_failed release try_acquire_idle close_all
Step-Single {s = s} (pass w) u c = ground (arith, u c)
Step-Single {s = s} (made_it d h f) u c = ground (arith, u c)
Step-Single {s = s} (failed e h) u c = ground (arith, u c)
Step-Single {s = s} (releases d b h) u c = ground (arith, u c, count-remove c d s.leased h)
Step-Single {s = s} tries u c = ground (arith, u c)
Step-Single {s = s} closes u c = ground (arith, u c, count-append c s.pool.idle s.gone)

init-Inv : (limit : ℕ) → Inv limit (init limit)
unfolding init
init-Inv limit = ground arith

init_seeded-Inv : (limit c : ℕ) → Inv limit (init_seeded limit c)
unfolding init_seeded
init_seeded-Inv limit c = ground arith

init-Single : (limit : ℕ) → Single (init limit)
unfolding init
init-Single limit c = omega arith

init_seeded-Single : (limit c : ℕ) → Single (init_seeded limit c)
unfolding init_seeded
init_seeded-Single limit c d = ground arith

-- However the goroutines interleave: the pool counts as open what is idle, leased or being
-- dialed, as dialing what is being dialed, and never more than its limit, which lies between 1
-- and what was configured (or 1); a closed pool keeps nothing idle; each connection that was
-- made is idle, leased or closed; `onCap` is called when the pool is capped, and once.
pub Reach-Inv : {limit : ℕ} {s : System} → Reach limit s → Inv limit s
Reach-Inv {limit = l} empty = init-Inv l
Reach-Inv {limit = l} (seeded c) = init_seeded-Inv l c
Reach-Inv {limit = l} (next r st) = Step-Inv l st (Reach-Inv r)

-- A connection is never leased twice, nor leased while it is idle or after it was closed, nor
-- closed twice.
pub Reach-Single : {limit : ℕ} {s : System} → Reach limit s → Single s
Reach-Single {limit = l} empty = init-Single l
Reach-Single {limit = l} (seeded c) = init_seeded-Single l c
Reach-Single (next r st) = Step-Single st (Reach-Single r)

-- When a closed pool's leases have been released and its dials have ended, every connection that
-- was ever made has been closed.
pub closed_leaks_nothing :
    (limit : ℕ) (s : System)
    → Reach limit s
    → s.pool.closed ≡ true
    → s.leased ≡ []
    → s.dials ≡ 0
    → (length s.gone ≡ s.made) × (s.pool.open_count ≡ 0)
closed_leaks_nothing limit s r c l d = let i = Reach-Inv r in ground (arith, i.shut c)
