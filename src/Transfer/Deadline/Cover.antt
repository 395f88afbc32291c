-- ===== src/Transfer/Deadline/Cover.antt =====
-- internal/transfer/deadline.go: whom the deadline of the connection covers.
use sfync.Base.{
  ℕ, ◌+◌, ◌≤◌, ◌<◌, ◌≡◌, refl, sym, ap, ◌∙◌, Bool, true, false, ◌⊎◌, inl, inr, none, some, [], ◌∷◌,
  if◌then◌else◌, ltb, nat_eq, arith,
}
use sfync.Base.Dict.{
  Dict, lookup, insert, erase, NodupKeys, lookup-insert, lookup-erase, insert-NodupKeys,
  erase-NodupKeys,
}
use sfync.Transfer.Deadline.{
  DeadlineTracker, new_deadline_tracker, latest_from, apply, begin, finish_id, Step, begins, ends,
  Reach, start, next,
}

latest_from-above : (latest : ℕ) (m : Dict ℕ ℕ) → latest ≤ latest_from latest m
unfolding latest_from
latest_from-above latest [] = omega arith
latest_from-above latest ((_, dl) ∷ m) =
    ground (arith, latest_from-above (if ltb latest dl then dl else latest) m)

latest_from-covers :
    (latest : ℕ) (m : Dict ℕ ℕ) (id dl : ℕ) → lookup id m ≡ some dl → dl ≤ latest_from latest m
unfolding latest_from lookup
latest_from-covers latest [] id dl h = ground arith
latest_from-covers latest ((k, v) ∷ m) id dl h = ground (
  arith,
  latest_from-above (if ltb latest v then v else latest) m,
  latest_from-covers (if ltb latest v then v else latest) m id dl,
)

lookup_first : (k v : ℕ) (m : Dict ℕ ℕ) → lookup k ((k, v) ∷ m) ≡ some v
unfolding lookup
lookup_first k v m = ground arith

-- Some operation in flight has the deadline `dl`.
abbrev pub Runs : ℕ → Dict ℕ ℕ → Type 0
Runs dl m = (id : ℕ) × (lookup id m ≡ some dl)

cons-Runs : (k v dl : ℕ) (m : Dict ℕ ℕ) → lookup k m ≡ none → Runs dl m → Runs dl ((k, v) ∷ m)
unfolding lookup
cons-Runs k v dl m fresh (id, e) = (id, ground arith)

latest_from-attained :
    (latest : ℕ) (m : Dict ℕ ℕ)
    → NodupKeys m
    → (latest_from latest m ≡ latest) ⊎ Runs (latest_from latest m) m
unfolding latest_from
latest_from-attained latest [] u = inl refl
latest_from-attained latest ((k, v) ∷ m) (fresh, u) =
    attained (ltb latest v) (latest_from-attained (if ltb latest v then v else latest) m u)
  where
    attained :
        (b : Bool)
        → (latest_from (if b then v else latest) m ≡ (if b then v else latest))
          ⊎ Runs (latest_from (if b then v else latest) m) m
        → (latest_from (if b then v else latest) m ≡ latest)
          ⊎ Runs (latest_from (if b then v else latest) m) ((k, v) ∷ m)
    attained b (inr r) = inr (cons-Runs k v _ m fresh r)
    attained false (inl e) = inl e
    attained true (inl e) = inr (k, lookup_first k v m ∙ ap some (sym e))

-- No deadline of an operation in flight is later than the connection's, which is cleared or that
-- of some operation in flight; and the ids in flight are distinct and were given out.
abbrev pub Covers : DeadlineTracker → Type 0
Covers t =
    ((id dl : ℕ) → lookup id t.active ≡ some dl → dl ≤ t.deadline)
    × ((t.deadline ≡ 0) ⊎ Runs t.deadline t.active)
    × NodupKeys t.active
    × ((id dl : ℕ) → lookup id t.active ≡ some dl → id < t.next_id)

apply-Covers :
    (t : DeadlineTracker)
    → NodupKeys t.active
    → ((id dl : ℕ) → lookup id t.active ≡ some dl → id < t.next_id)
    → Covers (apply t)
unfolding apply
apply-Covers t u given =
    (latest_from-covers 0 t.active, latest_from-attained 0 t.active u, u, given)

step-Covers : {t t' : DeadlineTracker} → Step t t' → Covers t → Covers t'
unfolding begin finish_id
step-Covers {t = t} (begins now d) (_, _, u, given) =
    apply-Covers
      (record t { active = insert t.next_id (now + d) t.active; next_id = t.next_id + 1 })
      (insert-NodupKeys t.next_id (now + d) t.active u)
      (λ id dl e. ground (arith, lookup-insert id t.next_id (now + d) t.active, given id dl))
step-Covers {t = t} (ends id dl _) (_, _, u, given) =
    apply-Covers (record t { active = erase id t.active }) (erase-NodupKeys id t.active u)
      (λ j dl' e. ground (arith, lookup-erase j id t.active, given j dl'))

-- In every reachable state no deadline of an operation in flight is later than the connection's,
-- which is cleared or that of some operation in flight; and the ids in flight are distinct and were
-- given out.
pub Reach-Covers : {t : DeadlineTracker} → Reach t → Covers t
unfolding new_deadline_tracker lookup
Reach-Covers start = ((λ id dl e. ground arith), inl refl, tt, (λ id dl e. ground arith))
Reach-Covers (next r s) = step-Covers s (Reach-Covers r)
