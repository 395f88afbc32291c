-- ===== src/Transfer/Pool/Retire.antt =====
-- internal/transfer/pool.go: what leasing, giving back and retiring do to the books.
use sfync.Base.{ℕ, ◌<◌, ◌≤◌, ◌≡◌, ◌≢◌, ◌+◌, Text, some, List, ◌∷◌}
use sfync.Base.{Bool, true, false, ◌&&◌, if◌then◌else◌, ◌==◌, nat_eq, text_eq, count, remove, arith}
use sfync.Base.{count-remove}
use sfync.Base.Dict.{Dict, lookup, NodupKeys, lookup-erase, erase-NodupKeys}
use sfync.Transfer.Pool.{ConnectionPool, add_user, release_locked, unlist, retire}

-- For the names that `listing` still has to account for.
pub record Inv (listing : Dict Text ℕ) (leases : List ℕ) (p : ConnectionPool) : Type 0 where
  pub users : (e : ℕ) → (p.entries e).users ≡ count e leases
  pub closed :
      (e : ℕ)
      → (p.entries e).closes ≡ (if (p.entries e).retired && (p.entries e).users == 0 then 1 else 0)
  pub listed :
      (name : Text) (e : ℕ)
      → lookup name listing ≡ some e
      → ((p.entries e).retired ≡ false) × ((p.entries e).owner ≡ name) × (e < p.next_entry)
  pub beyond : (e : ℕ) → p.next_entry ≤ e → (p.entries e).users ≡ 0 × (p.entries e).retired ≡ false
  pub names : NodupKeys listing

pub add_user-Inv :
    (p : ConnectionPool) (l : List ℕ) (e : ℕ)
    → (p.entries e).retired ≡ false
    → e < p.next_entry
    → Inv p.connections l p
    → Inv p.connections (e ∷ l) (add_user e p)
unfolding add_user
add_user-Inv p l e h b i = record {
  users = λ d. ground (arith, i.users d);
  closed = λ d. ground (arith, i.closed d);
  listed = λ name d q. ground (arith, i.listed name d);
  beyond = λ d q. ground (arith, i.beyond d);
  names = i.names;
}

pub release_locked-Inv :
    (p : ConnectionPool) (l : List ℕ) (e : ℕ) (good : Bool) (now : ℕ)
    → 0 < count e l
    → Inv p.connections l p
    → Inv p.connections (remove e l) (release_locked e good now p)
unfolding release_locked
release_locked-Inv p l e good now h i = record {
  users = λ d. ground (arith, i.users d, i.users e, count-remove d e l h);
  closed = λ d. ground (arith, i.closed d, i.users e);
  listed = λ name d q. ground (arith, i.listed name d);
  beyond = λ d q. ground (arith, i.beyond d);
  names = i.names;
}

-- `unlist` takes away only that the name stands for `e`.
module _ (p : ConnectionPool) (name : Text) (e : ℕ) where
  lookup-unlist :
      (n : Text) (d : ℕ)
      → lookup n (unlist name e p).connections ≡ some d
      → (lookup n p.connections ≡ some d) × (n ≡ name → d ≢ e)
  unfolding unlist
  lookup-unlist n d h = (
    ground (arith, lookup-erase n name p.connections),
    λ q r. ground (arith, lookup-erase n name p.connections),
  )

  unlist-NodupKeys : NodupKeys p.connections → NodupKeys (unlist name e p).connections
  unfolding unlist
  unlist-NodupKeys u = ground (arith, erase-NodupKeys name p.connections u)

  retire_connections : (retire name e p).connections ≡ (unlist name e p).connections
  unfolding retire
  retire_connections = ground arith

  retire_entries :
      (d : ℕ)
      → ((retire name e p).entries d).users ≡ (p.entries d).users
        × ((retire name e p).entries d).owner ≡ (p.entries d).owner
        × ((retire name e p).entries d).retired ≡ (if d == e then true else (p.entries d).retired)
        × (retire name e p).next_entry ≡ p.next_entry
  unfolding retire unlist
  retire_entries d = ground arith

  retire_closes :
      (d : ℕ)
      → ((retire name e p).entries d).closes ≡ (
          if d == e
          then (if (p.entries e).retired
              then (p.entries e).closes
              else (if (p.entries e).users == 0
                  then (p.entries e).closes + 1
                  else (p.entries e).closes))
          else (p.entries d).closes)
  unfolding retire unlist
  retire_closes d = ground arith

  pub retire-Inv :
      (l : List ℕ)
      → (p.entries e).owner ≡ name
      → e < p.next_entry
      → Inv p.connections l p
      → Inv (retire name e p).connections l (retire name e p)
  retire-Inv l own b i = record {
    users = λ d. ground (arith, i.users d, retire_entries d);
    closed = λ d. ground (arith, i.closed d, i.closed e, retire_entries d, retire_closes d);
    listed = λ n d q.
        let found = lookup-unlist n d (rw retire_connections at q) in
        ground (arith, i.listed n d found.0, retire_entries d, found.1);
    beyond = λ d q. ground (arith, i.beyond d, retire_entries d);
    names = rw retire_connections (unlist-NodupKeys i.names);
  }
