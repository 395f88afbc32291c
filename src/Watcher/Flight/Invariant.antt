-- ===== src/Watcher/Flight/Invariant.antt =====
-- The invariant of the upload queue of internal/watcher/queue.go.
use sfync.Base.{ℕ, ◌≡◌, ◌⊎◌, inl, inr, sym, subst, Text, some}
use sfync.Base.{List, [], ◌∷◌, ◌++◌, true, nat_eq, text_eq}
use sfync.Base.{is_some, arith, Bool-cases, Option-cases}
use sfync.Base.Dict.{lookup}
use sfync.Watcher.Flight.{
  UploadTask, flies, task_key, claim, finish, Worker, idle, holding, running, ended, System, init,
  set_worker, mark, begun, after_claim, after_finish, Step, enqueue, receive, claims, finishes,
  stop, leaves, Reach, start, next,
}
use sfync.Watcher.Flight.Maps.{
  Syncs, Holds, Queued, flies-claim, flies-finish, pending-claim, pending-finish, claim_verdict,
  finish_verdict, Syncs-set_worker, Holds-set_worker, Queued-append, Queued-last,
}

pub record Inv (s : System) : Type 0 where
  pub running_flies :
      (w : ℕ) (t : UploadTask) → s.workers w ≡ running t → flies (task_key t) s.flight ≡ true
  pub exclusive :
      (v w : ℕ) (t u : UploadTask)
      → s.workers v ≡ running t
      → s.workers w ≡ running u
      → task_key t ≡ task_key u
      → v ≡ w
  pub owned : (k : Text) → flies k s.flight ≡ true → (w : ℕ) × Syncs s.workers w k
  pub parked :
      (k : Text) (t : UploadTask)
      → lookup k s.flight.pending ≡ some t
      → (flies k s.flight ≡ true) × (task_key t ≡ k)
  pub covered :
      (k : Text)
      → s.unsynced k ≡ true
      → Queued k s.queue
        ⊎ ((w : ℕ) × Holds s.workers w k)
        ⊎ (is_some (lookup k s.flight.pending) ≡ true)

module _ (s : System) (i : Inv s) where
  enqueue-Inv :
      (t : UploadTask)
      → Inv (record s { queue = s.queue ++ t ∷ []; unsynced = mark (task_key t) true s.unsynced })
  enqueue-Inv t = record {
    running_flies = i.running_flies;
    exclusive = i.exclusive;
    owned = i.owned;
    parked = i.parked;
    covered = λ k h. elim (text_eq.dec k (task_key t)) [
      | yes e ↦ inl (subst (λ j. Queued j (s.queue ++ t ∷ [])) (sym e) (Queued-last s.queue t))
      | no n ↦ elim (i.covered k (ground arith)) [
        | inl q ↦ inl (Queued-append k s.queue t q)
        | inr r ↦ inr r
      ]
    ];
  }

  receive-Inv :
      (w : ℕ) (t : UploadTask) (rest : List UploadTask)
      → s.workers w ≡ idle
      → s.queue ≡ t ∷ rest
      → Inv (record s { queue = rest; workers = set_worker w (holding t) s.workers })
  receive-Inv w t rest e q = record {
    running_flies = λ v u h. ground (arith, i.running_flies v u);
    exclusive = λ v v' u u' h h' same. ground (arith, i.exclusive v v' u u');
    owned = λ k h.
        let (v, o) = i.owned k h in
        (v, Syncs-set_worker s.workers w (holding t) k v (λ n. ground (arith, o.1)) o);
    parked = i.parked;
    covered = λ k h. elim (i.covered k h) [
      | inl l ↦ elim (subst (Queued k) q l) [
        | inl here ↦ inr (inl (w, (t, ground arith, here)))
        | inr later ↦ inl later
      ]
      | inr (inl (v, o)) ↦
          inr (inl (v, Holds-set_worker s.workers w (holding t) k v (λ n. ground (arith, o.1)) o))
      | inr (inr p) ↦ inr (inr p)
    ];
  }

  abbrev claimed : ℕ → UploadTask → ℕ → Worker
  claimed w t = set_worker w (after_claim t (claim t s.flight).0) s.workers

  abbrev finished : ℕ → UploadTask → ℕ → Worker
  finished w t = set_worker w (after_finish (finish t s.flight).0) s.workers

  claims_owned :
      (w : ℕ) (t : UploadTask)
      → s.workers w ≡ holding t
      → (k : Text) → flies k (claim t s.flight).1 ≡ true
      → (v : ℕ) × Syncs (claimed w t) v k
  claims_owned w t e k h =
      let verdict = claim_verdict t s.flight in
      let here = flies-claim k t s.flight in
      elim (Bool-cases (flies k s.flight)) [
        | inl flew ↦
            let (v, o) = i.owned k flew in
            (v, Syncs-set_worker s.workers w _ k v (λ n. ground (arith, o.1)) o)
        | inr new ↦ (w, (t, ground arith, ground arith))
      ]

  claims_covered :
      (w : ℕ) (t : UploadTask)
      → s.workers w ≡ holding t
      → (k : Text) → begun t (claim t s.flight).0 s.unsynced k ≡ true
      → Queued k s.queue
        ⊎ ((v : ℕ) × Holds (claimed w t) v k)
        ⊎ (is_some (lookup k (claim t s.flight).1.pending) ≡ true)
  claims_covered w t e k h =
      let verdict = claim_verdict t s.flight in
      let parks = pending-claim k t s.flight in
      elim (i.covered k (ground arith)) [
        | inl q ↦ inl q
        | inr (inl (v, o)) ↦ elim (nat_eq.dec v w) [
          | yes same ↦ inr (inr (ground (arith, o.1, o.2)))
          | no other ↦ inr (inl (v, Holds-set_worker s.workers w _ k v other o))
        ]
        | inr (inr p) ↦ inr (inr (ground arith))
      ]

  -- The two ways in which `claim` ends.
  claims-Inv :
      (w : ℕ) (t : UploadTask)
      → s.workers w ≡ holding t
      → Inv (record s {
        flight = (claim t s.flight).1;
        workers = set_worker w (after_claim t (claim t s.flight).0) s.workers;
        unsynced = begun t (claim t s.flight).0 s.unsynced;
      })
  claims-Inv w t e =
      let verdict = claim_verdict t s.flight in
      record {
        running_flies = λ v u h.
            ground (arith, verdict, flies-claim (task_key u) t s.flight, i.running_flies v u);
        exclusive = λ v v' u u' h h' same.
            ground
              (arith, verdict, i.exclusive v v' u u', i.running_flies v u, i.running_flies v' u');
        owned = claims_owned w t e;
        parked = λ k u h.
            ground
              (arith, verdict, flies-claim k t s.flight, pending-claim k t s.flight, i.parked k u);
        covered = claims_covered w t e;
      }

  finishes_owned :
      (w : ℕ) (t : UploadTask)
      → s.workers w ≡ running t
      → (k : Text) → flies k (finish t s.flight).1 ≡ true
      → (v : ℕ) × Syncs (finished w t) v k
  finishes_owned w t e k h =
      let here = flies-finish k t s.flight in
      let (v, o) = i.owned k (ground arith) in
      (v, Syncs-set_worker s.workers w _ k v (λ n. ground (arith, o.1, o.2)) o)

  finishes_covered :
      (w : ℕ) (t : UploadTask)
      → s.workers w ≡ running t
      → (k : Text) → s.unsynced k ≡ true
      → Queued k s.queue
        ⊎ ((v : ℕ) × Holds (finished w t) v k)
        ⊎ (is_some (lookup k (finish t s.flight).1.pending) ≡ true)
  finishes_covered w t e k h =
      let verdict = finish_verdict t s.flight in
      let parks = pending-finish k t s.flight in
      elim (i.covered k h) [
        | inl q ↦ inl q
        | inr (inl (v, o)) ↦
            inr (inl (v, Holds-set_worker s.workers w _ k v (λ n. ground (arith, o.1)) o))
        | inr (inr p) ↦ elim (text_eq.dec k (task_key t)) [
          | no other ↦ inr (inr (ground arith))
          | yes same ↦ elim (Option-cases (lookup k s.flight.pending)) [
            | inl none' ↦ absurd (ground arith)
            | inr (u, found) ↦
                inr (inl (w, (u, ground (arith, i.parked k u), (i.parked k u found).1)))
          ]
        ]
      ]

  finishes-Inv :
      (w : ℕ) (t : UploadTask)
      → s.workers w ≡ running t
      → Inv (record s {
        flight = (finish t s.flight).1;
        workers = set_worker w (after_finish (finish t s.flight).0) s.workers;
      })
  finishes-Inv w t e =
      let verdict = finish_verdict t s.flight in
      record {
        running_flies = λ v u h. ground (
          arith,
          verdict,
          flies-finish (task_key u) t s.flight,
          i.running_flies v u,
          i.exclusive v w u t,
        );
        exclusive = λ v v' u u' h h' same. ground (arith, verdict, i.exclusive v v' u u');
        owned = finishes_owned w t e;
        parked = λ k u h.
            ground (arith, flies-finish k t s.flight, pending-finish k t s.flight, i.parked k u);
        covered = finishes_covered w t e;
      }

  leaves-Inv :
      (w : ℕ) → s.workers w ≡ idle → Inv (record s { workers = set_worker w ended s.workers })
  leaves-Inv w e = record {
    running_flies = λ v u h. ground (arith, i.running_flies v u);
    exclusive = λ v v' u u' h h' same. ground (arith, i.exclusive v v' u u');
    owned = λ k h.
        let (v, o) = i.owned k h in
        (v, Syncs-set_worker s.workers w ended k v (λ n. ground (arith, o.1)) o);
    parked = i.parked;
    covered = λ k h. elim (i.covered k h) [
      | inl q ↦ inl q
      | inr (inl (v, o)) ↦
          inr (inl (v, Holds-set_worker s.workers w ended k v (λ n. ground (arith, o.1)) o))
      | inr (inr p) ↦ inr (inr p)
    ];
  }

Step-Inv : {s t : System} → Step s t → Inv s → Inv t
Step-Inv {s = s} (enqueue t room) i = enqueue-Inv s i t
Step-Inv {s = s} (receive w t rest few e q) i = receive-Inv s i w t rest e q
Step-Inv {s = s} (claims w t e) i = claims-Inv s i w t e
Step-Inv {s = s} (finishes w t e) i = finishes-Inv s i w t e
Step-Inv {s = s} stop i = record {
  running_flies = i.running_flies;
  exclusive = i.exclusive;
  owned = i.owned;
  parked = i.parked;
  covered = i.covered;
}
Step-Inv {s = s} (leaves w over e) i = leaves-Inv s i w e

init-Inv : Inv init
unfolding init lookup
init-Inv = record {
  running_flies = λ w t h. cc;
  exclusive = λ v w t u h k same. cc;
  owned = λ k h. cc;
  parked = λ k t h. cc;
  covered = λ k h. cc;
}

pub Reach-Inv : {s : System} → Reach s → Inv s
Reach-Inv start = init-Inv
Reach-Inv (next r st) = Step-Inv st (Reach-Inv r)
