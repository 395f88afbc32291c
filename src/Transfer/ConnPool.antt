-- ===== src/Transfer/ConnPool.antt =====
-- internal/transfer/connpool.go: connections handed out for exclusive use. Each function here is
-- what one goroutine does while it holds the lock; ConnPool.Run lets the goroutines interleave. A
-- connection is a number, and an error of `dial` its text. The head of `idle` is the end of the
-- program's slice. Go's ints are natural numbers here: ConnPool.Accounts shows that none of the
-- subtractions goes below 0.
pub mod Run
pub mod Accounts
pub mod Tests
use sfync.Base.{ℕ, max, ◌+◌, ◌-◌, Text, Option, none, some, List, [], ◌∷◌, Bool, true, false}
use sfync.Base.{◌&&◌, ◌||◌, not, ltb, is_some, if◌then◌else◌, ◌==◌, nat_eq, length}

pub record ConnPool : Type 0 where
  pub idle : List ℕ
  pub open_count : ℕ
  pub dialing : ℕ
  pub dial_err : Option Text
  pub limit : ℕ
  pub capped : Bool
  pub closed : Bool

unfoldable pub new_conn_pool : ℕ → ConnPool
new_conn_pool limit = record {
  idle = [];
  open_count = 0;
  dialing = 0;
  dial_err = none;
  limit = max limit 1;
  capped = false;
  closed = false;
}

unfoldable pub seed : ℕ → ConnPool → ConnPool
seed c p = record p { open_count = p.open_count + 1; idle = c ∷ p.idle }

-- What a pass of the loop of `acquire` comes to: it returns a connection, the error of a closed
-- pool or that of a dial, or it gives up the lock to dial, to wait, or not at all and loops.
pub data Pass : Type 0 where
  got : ℕ → Pass
  pool_closed : Pass
  refused : Text → Pass
  dials : Pass
  waits : Pass
  loops : Pass

-- The end of the loop's body, behind the return of an idle connection.
unfoldable pub grow : Bool → ConnPool → Option Text → Pass × ConnPool
unfolding nat_eq
grow waited p none =
    if ltb p.open_count p.limit
    then (dials, record p { open_count = p.open_count + 1; dialing = p.dialing + 1 })
    else (waits, p)
grow waited p (some e) =
    if waited && p.open_count == 0
    then (refused e, p)
    else if ltb p.open_count p.limit
    then (dials, record p { open_count = p.open_count + 1; dialing = p.dialing + 1 })
    else (waits, p)

-- A pass of the loop of `acquire`, from its top to the dial or the wait.
unfoldable pub acquire_pass : Bool → ConnPool → Pass × ConnPool
unfolding grow
acquire_pass waited p = if p.closed then (pool_closed, p) else elim p.idle [
  | c ∷ rest ↦ (got c, record p { idle = rest })
  | [] ↦ grow waited p p.dial_err
]

-- What `acquire` does when its dial has made the connection `c`. In a closed pool `c` is closed.
unfoldable pub dial_made : ℕ → ConnPool → Pass × ConnPool
dial_made c p =
    let q = record p { dialing = p.dialing - 1; dial_err = none } in
    if p.closed then (pool_closed, record q { open_count = p.open_count - 1 }) else (got c, q)

-- What `acquire` does when its dial has failed. The number is the argument of `onCap`, if called.
unfoldable pub dial_failed : Text → ConnPool → Pass × ConnPool × Option ℕ
unfolding nat_eq
dial_failed e p =
    let q = record p { dialing = p.dialing - 1; open_count = p.open_count - 1 } in
    let established = q.open_count - q.dialing in
    if established == 0 then (refused e, record q { dial_err = some e }, none) else (
      loops,
      record q { limit = q.open_count; capped = true },
      if q.capped then none else some established,
    )

-- The flag says that the connection is closed.
unfoldable pub release : ℕ → Bool → ConnPool → Bool × ConnPool
release c broken p =
    if broken || p.closed
    then (true, record p { open_count = p.open_count - 1 })
    else (false, record p { idle = c ∷ p.idle })

-- What `tryAcquireIdle` returns where no connection can be had: none, and `busy`.
unfoldable pub none_idle : ConnPool → Option ℕ × Bool × ConnPool
none_idle p = (none, ltb 0 p.open_count && not p.closed, p)

unfoldable pub try_acquire_idle : ConnPool → Option ℕ × Bool × ConnPool
unfolding none_idle
try_acquire_idle p =
    if not p.closed
    then elim p.idle [ c ∷ rest ↦ (some c, false, record p { idle = rest }) | [] ↦ none_idle p ]
    else none_idle p

-- The connections that are closed.
unfoldable pub close_all : ConnPool → List ℕ × ConnPool
close_all p =
    if p.closed
    then ([], p)
    else (p.idle, record p { closed = true; idle = []; open_count = p.open_count - length p.idle })
