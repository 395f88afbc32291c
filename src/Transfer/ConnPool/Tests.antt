-- ===== src/Transfer/ConnPool/Tests.antt =====
-- Runs of the pool of internal/transfer/connpool.go.
use sfync.Base.{◌≤◌, ◌≡◌, refl, codes, [], ◌∷◌, arith, true, false, length, nat_eq, remove}
use sfync.Transfer.ConnPool.{waits, acquire_pass, dial_failed, release, close_all}
use sfync.Transfer.ConnPool.Run.{
  System, init_seeded, pass, failed, releases, closes, Reach, seeded, next,
}
use sfync.Transfer.ConnPool.Accounts.{Inv, places, Reach-Inv, Reach-Single, closed_leaks_nothing}

-- A pool of two with connection 5: it is leased, and a second dial fails, which caps the pool.
capped : (s : System) × Reach 2 s × ((acquire_pass true s.pool).0 ≡ waits) × (s.leased ≡ 5 ∷ [])
unfolding init_seeded nat_eq acquire_pass dial_failed
capped = (
  _,
  next (next (next (seeded 5) (pass false)) (pass false)) (failed (codes "421") (omega arith)),
  refl,
  refl,
)

-- The pool is closed, and its connection released.
ended : (s : System) × Reach 2 s × (s.pool.closed ≡ true) × (s.leased ≡ []) × (s.dials ≡ 0)
unfolding init_seeded nat_eq acquire_pass release close_all remove
ended = (
  _,
  next (next (next (seeded 5) (pass false)) closes) (releases 5 false (omega arith)),
  refl,
  refl,
  refl,
)

Reach-Inv_example : Inv 2 capped.0
Reach-Inv_example = Reach-Inv capped.1

Reach-Single_example : places 5 capped.0 ≤ 1
Reach-Single_example = Reach-Single capped.1 5

closed_leaks_nothing_example : (length ended.0.gone ≡ ended.0.made) × (ended.0.pool.open_count ≡ 0)
closed_leaks_nothing_example = closed_leaks_nothing 2 ended.0 ended.1 ended.2 ended.3 ended.4

ended_books : (ended.0.gone ≡ 5 ∷ []) × (capped.0.pool.limit ≡ 1)
unfolding ended capped
ended_books = (refl, refl)
