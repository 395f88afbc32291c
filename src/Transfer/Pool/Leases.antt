-- ===== src/Transfer/Pool/Leases.antt =====
-- A leased connection of internal/transfer/pool.go is not closed, and a retired one is closed
-- once, when its last lease ends.
use sfync.Base.{ℕ, ◌<◌, ◌≡◌, refl, Text, some, List, [], ◌∷◌}
use sfync.Base.{Bool, true, false, if◌then◌else◌, nat_eq, text_eq, count, remove, arith}
use sfync.Base.{sym, subst, Option-cases, inl, inr}
use sfync.Base.Dict.{Dict, lookup, lookup-cons, lookup-insert, insert-NodupKeys}
use sfync.Config.{Profile, Profiles}
use sfync.Transfer.Pool.{
  ConnectionPool, new_connection_pool, current, acquire_shared, probe_alive, release_locked,
  probe_dead, dialed, retire_listed, outdated, retire_outdated, update_profiles, close_entries,
  close_all,
}
use sfync.Transfer.Pool.Run.{
  System, lease_shared, Step, shares, alive, dead, connects, releases, updates, closes, Reach,
  start, next,
}
use sfync.Transfer.Pool.Retire.{Inv, add_user-Inv, release_locked-Inv, retire-Inv}

current-eq-some :
    (name : Text) (p : ConnectionPool) (e : ℕ)
    → current name p ≡ some e
    → lookup name p.connections ≡ some e
unfolding current
current-eq-some name p e h = ground arith

shares-Inv :
    (p : ConnectionPool) (l : List ℕ) (name : Text) (now : ℕ)
    → Inv p.connections l p
    → let r = acquire_shared name now p in Inv r.1.connections (lease_shared r.0 l) r.1
unfolding acquire_shared
shares-Inv p l name now i = elim (Option-cases (current name p)) [
  | inl e ↦ rw (e, acquire_shared) i
  | inr (e, found) ↦
      let facts = i.listed name e (current-eq-some name p e found) in
      rw (found, acquire_shared) (add_user-Inv p l e facts.0 facts.2 i)
]

probe_alive-Inv :
    (p : ConnectionPool) (l : List ℕ) (e : ℕ) (fresh : Bool) (now : ℕ)
    → Inv p.connections l p
    → Inv (probe_alive e fresh now p).connections l (probe_alive e fresh now p)
unfolding probe_alive
probe_alive-Inv p l e true now i = i
probe_alive-Inv p l e false now i = record {
  users = λ d. ground (arith, i.users d);
  closed = λ d. ground (arith, i.closed d);
  listed = λ name d q. ground (arith, i.listed name d);
  beyond = λ d q. ground (arith, i.beyond d);
  names = i.names;
}

-- A leased entry is one that was made.
leased-lt :
    (p : ConnectionPool) (l : List ℕ) (e : ℕ)
    → Inv p.connections l p
    → 0 < count e l
    → e < p.next_entry
leased-lt p l e i h = ground (arith, i.beyond e, i.users e)

probe_dead-Inv :
    (p : ConnectionPool) (l : List ℕ) (e now : ℕ)
    → 0 < count e l
    → Inv p.connections l p
    → let q = probe_dead (p.entries e).owner e now p in Inv q.connections (remove e l) q
unfolding probe_dead
probe_dead-Inv p l e now h i =
    release_locked-Inv _ l e true now h
      (retire-Inv p (p.entries e).owner e l refl (leased-lt p l e i h) i)

dialed-Inv :
    (p : ConnectionPool) (l : List ℕ) (name : Text) (profile : Profile) (now : ℕ)
    → Inv p.connections l p
    → let r = dialed name profile now p in Inv r.1.connections (r.0 ∷ l) r.1
unfolding dialed
dialed-Inv p l name profile now i = elim (Option-cases (current name p)) [
  | inr (e, found) ↦
      let facts = i.listed name e (current-eq-some name p e found) in
      rw (found, dialed) (add_user-Inv p l e facts.0 facts.2 i)
  | inl e ↦
      rw (e, dialed)
        (record {
          users = λ d. ground (arith, i.users d, i.beyond d);
          closed = λ d. ground (arith, i.closed d);
          listed = λ n d q.
              ground (arith, i.listed n d, lookup-insert n name p.next_entry p.connections);
          beyond = λ d q. ground (arith, i.beyond d);
          names = insert-NodupKeys name p.next_entry p.connections i.names;
        })
]

retire_listed-Inv :
    (p : ConnectionPool) (l : List ℕ) (name : Text)
    → Inv p.connections l p
    → let q = retire_listed name (lookup name p.connections) p in Inv q.connections l q
retire_listed-Inv p l name i = elim (Option-cases (lookup name p.connections)) [
  | inl e ↦ rw e i
  | inr (e, found) ↦
      let facts = i.listed name e found in rw found (retire-Inv p name e l facts.1 facts.2 i)
]

retire_outdated-Inv :
    (new olds : Profiles) (p : ConnectionPool) (l : List ℕ)
    → Inv p.connections l p
    → let q = retire_outdated new olds p in Inv q.connections l q
unfolding retire_outdated
retire_outdated-Inv new [] p l i = i
retire_outdated-Inv new ((name, old) ∷ olds) p l i =
    retire_outdated-Inv new olds _ l (step (outdated old (lookup name new)))
  where
    step :
        (b : Bool)
        → let q = if b then retire_listed name (lookup name p.connections) p else p in
          Inv q.connections l q
    step true = retire_listed-Inv p l name i
    step false = i

update_profiles-Inv :
    (new : Profiles) (p : ConnectionPool) (l : List ℕ)
    → Inv p.connections l p
    → Inv (update_profiles new p).connections l (update_profiles new p)
unfolding update_profiles
update_profiles-Inv new p l i =
    let j = retire_outdated-Inv new p.profiles p l i in
    record {
      users = j.users;
      closed = j.closed;
      listed = j.listed;
      beyond = j.beyond;
      names = j.names;
    }

close_entries-Inv :
    (m : Dict Text ℕ) (p : ConnectionPool) → Inv m [] p → Inv [] [] (close_entries m p)
unfolding close_entries
close_entries-Inv [] p i = i
close_entries-Inv ((name, e) ∷ m) p i =
    let own = i.listed name e (rw lookup-cons (ground arith)) in
    close_entries-Inv m _ (record {
      users = λ d. ground (arith, i.users d);
      closed = λ d. ground (arith, i.closed d, i.users d, own);
      listed = λ n d q. ground (arith, i.listed n d, lookup-cons n name e m, own, i.names);
      beyond = λ d q. ground (arith, i.beyond d, own);
      names = i.names.1;
    })

close_all-Inv :
    (p : ConnectionPool) → Inv p.connections [] p → Inv (close_all p).connections [] (close_all p)
unfolding close_all
close_all-Inv p i =
    let j = close_entries-Inv p.connections p i in
    record {
      users = j.users;
      closed = j.closed;
      listed = j.listed;
      beyond = j.beyond;
      names = j.names;
    }

abbrev pub Books : System → Type 0
Books s = Inv s.pool.connections s.leases s.pool

Step-Books : {s t : System} → Step s t → Books s → Books t
unfolding release_locked
Step-Books {s = s} (shares name now) i = shares-Inv s.pool s.leases name now i
Step-Books {s = s} (alive e fresh now h) i = probe_alive-Inv s.pool s.leases e fresh now i
Step-Books {s = s} (dead e now h) i = probe_dead-Inv s.pool s.leases e now h i
Step-Books {s = s} (connects name profile now) i = dialed-Inv s.pool s.leases name profile now i
Step-Books {s = s} (releases e good now h) i = release_locked-Inv s.pool s.leases e good now h i
Step-Books {s = s} (updates new) i = update_profiles-Inv new s.pool s.leases i
Step-Books {s = s} (closes h) i =
    let j = close_all-Inv s.pool (subst (λ l. Inv s.pool.connections l s.pool) h i) in
    subst (λ l. Inv (close_all s.pool).connections l (close_all s.pool)) (sym h) j

start-Books : (ps : Profiles) → Books (record { pool = new_connection_pool ps; leases = [] })
unfolding new_connection_pool lookup
start-Books ps = record {
  users = λ e. omega arith;
  closed = λ e. ground arith;
  listed = λ name e h. cc;
  beyond = λ e h. (refl, refl);
  names = tt;
}

-- However `Acquire`, `release` and `UpdateProfiles` interleave, up to the shutdown: each entry
-- counts its leases; its client is closed once if it is retired and has none, and else not at
-- all; and what the map offers is not retired and was made for that name.
pub Reach-Books : {ps : Profiles} {s : System} → Reach ps s → Books s
Reach-Books {ps = ps} start = start-Books ps
Reach-Books (next r st) = Step-Books st (Reach-Books r)

-- No client is closed underneath an operation that has a lease on it.
leased_open :
    (ps : Profiles) (s : System) (e : ℕ)
    → Reach ps s
    → 0 < count e s.leases
    → (s.pool.entries e).closes ≡ 0
leased_open ps s e r h = let i = Reach-Books r in ground (arith, i.users e, i.closed e)
