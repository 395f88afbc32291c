-- ===== src/Transfer/Pool/Stale.antt =====
-- What a reload of the configuration does to the connections of internal/transfer/pool.go.
use sfync.Base.{
  ℕ, ℤ, ℤ_eq, bool_eq, ◌≡◌, ◌↔◌, refl, Text, Option, none, some, [], ◌∷◌, Bool, true, false,
}
use sfync.Base.{if◌then◌else◌, ◌||◌, not, ◌==◌, nat_eq, text_eq, arith, Option-cases, inl, inr}
use sfync.Base.Dict.{lookup, NodupKeys, lookup-nil, lookup-cons, lookup-erase}
use sfync.Config.{Profile, Profiles}
use sfync.Transfer.Pool.{
  ConnectionPool, unlist, retire, retire_listed, outdated, retire_outdated, update_profiles,
  profile_changed, verify,
}

lookup-retire_listed :
    (p : ConnectionPool) (name n : Text)
    → lookup n (retire_listed name (lookup name p.connections) p).connections
      ≡ (if n == name then none else lookup n p.connections)
unfolding retire unlist
lookup-retire_listed p name n = elim (Option-cases (lookup name p.connections)) [
  | inl e ↦ rw e (ground arith)
  | inr (d, e) ↦ rw e (ground (arith, lookup-erase n name p.connections))
]

-- What is left of a name, from its old profile.
abbrev kept : Option Profile → Option Profile → Option ℕ → Option ℕ
kept none new e = e
kept (some old) new e = if outdated old new then none else e

lookup-round :
    (b : Bool) (p : ConnectionPool) (name n : Text)
    → lookup n (if b then retire_listed name (lookup name p.connections) p else p).connections
      ≡ (if b then (if n == name then none else lookup n p.connections) else lookup n p.connections)
lookup-round true p name n = lookup-retire_listed p name n
lookup-round false p name n = refl

kept-none : (old new : Option Profile) → kept old new none ≡ none
kept-none none new = refl
kept-none (some old) new = ground arith

lookup-retire_outdated :
    (new olds : Profiles) (p : ConnectionPool) (n : Text)
    → NodupKeys olds
    → lookup n (retire_outdated new olds p).connections
      ≡ kept (lookup n olds) (lookup n new) (lookup n p.connections)
unfolding retire_outdated
lookup-retire_outdated new [] p n u = rw lookup-nil
lookup-retire_outdated new ((name, old) ∷ olds) p n (fresh, u) =
    let b = outdated old (lookup name new) in
    rw
      (
        lookup-retire_outdated new olds
            (if b then retire_listed name (lookup name p.connections) p else p) n u,
        lookup-round b p name n,
        lookup-cons n name old olds,
      )
      (elim (text_eq.dec n name) [ yes e ↦ rw e (rw fresh (ground arith)) | no e ↦ ground arith ])

-- The profiles connect in the same way: to the same host and port, as the same user with the same
-- credentials, over the same protocol with as many connections, with the same certificate, and both
-- or neither without looking at the host key.
abbrev pub Same : Profile → Profile → Type 0
Same old new =
    (old.host ≡ new.host)
    × (old.port ≡ new.port)
    × (old.username ≡ new.username)
    × (old.password ≡ new.password)
    × (old.ssh_key ≡ new.ssh_key)
    × (old.protocol ≡ new.protocol)
    × (old.ftp_connections ≡ new.ftp_connections)
    × (old.tls_ca_cert ≡ new.tls_ca_cert)
    × ((old.verify_host_key ≡ some false) ↔ (new.verify_host_key ≡ some false))

verify_iff : (a b : Option Bool) → (verify a ≡ verify b) ↔ ((a ≡ some false) ↔ (b ≡ some false))
verify_iff none none = (λ _. (λ h. h, λ h. h), λ _. refl)
verify_iff none (some true) = (λ _. (λ h. absurd (cc), λ h. absurd (cc)), λ _. refl)
verify_iff none (some false) = (λ e. absurd (cc), λ h. absurd (ground (arith, h.1 refl)))
verify_iff (some true) none = (λ _. (λ h. absurd (cc), λ h. absurd (cc)), λ _. refl)
verify_iff (some true) (some true) = (λ _. (λ h. h, λ h. h), λ _. refl)
verify_iff (some true) (some false) = (λ e. absurd (cc), λ h. absurd (ground (arith, h.1 refl)))
verify_iff (some false) none = (λ e. absurd (cc), λ h. absurd (ground (arith, h.0 refl)))
verify_iff (some false) (some true) = (λ e. absurd (cc), λ h. absurd (ground (arith, h.0 refl)))
verify_iff (some false) (some false) = (λ _. (λ h. h, λ h. h), λ _. refl)

text_differs_iff :
    (a b : Text) (rest : Bool) → (not (a == b) || rest) ≡ false ↔ ((a ≡ b) × (rest ≡ false))
text_differs_iff a b rest = (λ h. (ground arith, ground arith), λ h. let (e, k) = h in ground arith)

int_differs_iff :
    (a b : ℤ) (rest : Bool) → (not (a == b) || rest) ≡ false ↔ ((a ≡ b) × (rest ≡ false))
int_differs_iff a b rest = (λ h. (ground arith, ground arith), λ h. let (e, k) = h in ground arith)

bool_differs_iff : (a b : Bool) → not (a == b) ≡ false ↔ (a ≡ b)
bool_differs_iff a b = (λ h. ground arith, λ e. ground arith)

profile_changed_iff : (old new : Profile) → profile_changed old new ≡ false ↔ Same old new
unfolding profile_changed
profile_changed_iff old new = (
  λ h.
      let (e1, h1) = (text_differs_iff old.host new.host _).0 h in
      let (e2, h2) = (int_differs_iff old.port new.port _).0 h1 in
      let (e3, h3) = (text_differs_iff old.username new.username _).0 h2 in
      let (e4, h4) = (text_differs_iff old.password new.password _).0 h3 in
      let (e5, h5) = (text_differs_iff old.ssh_key new.ssh_key _).0 h4 in
      let (e6, h6) = (text_differs_iff old.protocol new.protocol _).0 h5 in
      let (e7, h7) = (int_differs_iff old.ftp_connections new.ftp_connections _).0 h6 in
      let (e8, h8) = (text_differs_iff old.tls_ca_cert new.tls_ca_cert _).0 h7 in
      (e1, e2, e3, e4, e5, e6, e7, e8, checks.0 ((bool_differs_iff _ _).0 h8)),
  λ h.
      let (e1, e2, e3, e4, e5, e6, e7, e8, e9) = h in
      (text_differs_iff old.host new.host _).1 (
        e1,
        (int_differs_iff old.port new.port _).1 (
          e2,
          (text_differs_iff old.username new.username _).1 (
            e3,
            (text_differs_iff old.password new.password _).1 (
              e4,
              (text_differs_iff old.ssh_key new.ssh_key _).1 (
                e5,
                (text_differs_iff old.protocol new.protocol _).1 (
                  e6,
                  (int_differs_iff old.ftp_connections new.ftp_connections _).1 (
                    e7,
                    (text_differs_iff old.tls_ca_cert new.tls_ca_cert _).1
                        (e8, (bool_differs_iff _ _).1 (checks.1 e9)),
                  ),
                ),
              ),
            ),
          ),
        ),
      ),
)
  where
    checks :
        (verify old.verify_host_key ≡ verify new.verify_host_key)
        ↔ ((old.verify_host_key ≡ some false) ↔ (new.verify_host_key ≡ some false))
    checks = verify_iff old.verify_host_key new.verify_host_key

-- What a reload makes of the connection of a name, from its profiles before and after.
abbrev pub Settled : Option Profile → Option Profile → Option ℕ → Option ℕ → Type 0
Settled none new before after = after ≡ before
Settled (some old) none before after = after ≡ none
Settled (some old) (some new) before after =
    (Same old new → after ≡ before) × (¬ Same old new → after ≡ none)

Settled-kept :
    (old new : Option Profile) (before after : Option ℕ)
    → after ≡ kept old new before
    → Settled old new before after
Settled-kept none new before after e = e
Settled-kept (some old) none before after e = e
Settled-kept (some old) (some new) before after e =
    step (profile_changed old new) refl (profile_changed_iff old new) e
  where
    step :
        (b : Bool)
        → profile_changed old new ≡ b
        → (profile_changed old new ≡ false ↔ Same old new)
        → after ≡ (if b then none else before)
        → (Same old new → after ≡ before) × (¬ Same old new → after ≡ none)
    step true h same e = (λ k. absurd (ground (arith, same.1 k)), λ _. e)
    step false h same e = (λ _. e, λ k. absurd (k (same.0 h)))

-- A reload keeps the connection of a name without an old profile, and of one whose old and new
-- profile connect in the same way; it takes it from a name whose profile is gone, or connects in
-- another way.
pub lookup-update_profiles :
    (new : Profiles) (p : ConnectionPool) (n : Text)
    → NodupKeys p.profiles
    → Settled
        (lookup n p.profiles)
        (lookup n new)
        (lookup n p.connections)
        (lookup n (update_profiles new p).connections)
unfolding update_profiles
lookup-update_profiles new p n u =
    Settled-kept (lookup n p.profiles) (lookup n new) (lookup n p.connections) _
      (lookup-retire_outdated new p.profiles p n u)
