-- ===== src/Daemon/Settling.antt =====
-- cmd/daemon.go, `handleConfigReload`: one profile that is watched already.
use sfync.Base.{
  ◌≡◌, ◌≢◌, refl, sym, ap, ◌∙◌, subst, ◌⊎◌, inl, inr, Text, Option, none, some, Bool, true, false,
}
use sfync.Base.{not, if◌then◌else◌, ◌==◌, nat_eq, text_eq, arith}
use sfync.Base.Dict.{Dict, lookup, insert, erase, lookup-insert, lookup-erase}
use sfync.Config.{Profile}
use sfync.Ignore.{Matcher}
use sfync.Watcher.Watch.{Outside, Watcher, watch, unwatch}
use sfync.Daemon.{Watched, stop_watching, restarted, restart, adjust}
use sfync.Daemon.Watches.{Kept, watch-Kept, watch_self, unwatch-Kept, unwatch-fails}

-- The watcher knows every profile that the daemon counts as watched.
abbrev pub Agrees : Watched → Type 0
Agrees s = (j : Text) (p : Profile) → lookup j s.watching ≡ some p → Kept j s.watcher

-- Every profile that counts as watched is that of the configuration, and has automatic sync on.
abbrev pub Follows : Dict Text Profile → Watched → Type 0
Follows profiles s =
    (j : Text) (p : Profile)
    → lookup j s.watching ≡ some p
    → (lookup j profiles ≡ some p) × (p.auto_sync ≡ true)

false-true : false ≡ true → ⊥
false-true e = absurd (cc)

some_injective : {a b : Profile} → some a ≡ some b → a ≡ b
some_injective e = cc

module _ (o : Outside) (glob : Matcher) where
  module _ (profiles : Dict Text Profile) where
    -- A profile put under a name, or the name taken away.
    abbrev pub Settled : Text → Watched → Watched → Type 0
    Settled name s s' =
        (j : Text) (p : Profile)
        → lookup j s'.watching ≡ some p
        → ((lookup j profiles ≡ some p) × (p.auto_sync ≡ true))
          ⊎ ((j ≢ name) × (lookup j s.watching ≡ some p))

    erased-Settled :
        (name : Text) (s : Watched) (w : Watcher)
        → Settled name s (record { watcher = w; watching = erase name s.watching })
    erased-Settled name s w j p found = elim (text_eq.dec j name) [
      | yes same ↦ absurd (ground (arith, lookup-erase j name s.watching))
      | no apart ↦ inr (apart, ground (arith, lookup-erase j name s.watching))
    ]

    pub inserted-Settled :
        (name : Text) (new : Profile) (s : Watched) (w : Watcher)
        → lookup name profiles ≡ some new
        → new.auto_sync ≡ true
        → Settled name s (record { watcher = w; watching = insert name new s.watching })
    inserted-Settled name new s w listed auto j p found = elim (text_eq.dec j name) [
      | yes same ↦
          let e : new ≡ p = some_injective (ground (arith, lookup-insert j name new s.watching)) in
          inl (
            ap (λ k. lookup k profiles) same ∙ listed ∙ ap (λ q. some q) e,
            ap (λ q. q.auto_sync) (sym e) ∙ auto,
          )
      | no apart ↦ inr (apart, ground (arith, lookup-insert j name new s.watching))
    ]

    -- A watcher that lost no name but one.
    abbrev pub Loses : Text → Watcher → Watcher → Type 0
    Loses name w w' = (j : Text) → j ≢ name → Kept j w → Kept j w'

    erased-Agrees :
        (name : Text) (s : Watched) (w : Watcher)
        → Agrees s
        → Loses name s.watcher w
        → Agrees (record { watcher = w; watching = erase name s.watching })
    erased-Agrees name s w agrees loses j p found = elim (text_eq.dec j name) [
      | yes same ↦ absurd (ground (arith, lookup-erase j name s.watching))
      | no apart ↦ loses j apart (agrees j p (ground (arith, lookup-erase j name s.watching)))
    ]

    pub inserted-Agrees :
        (name : Text) (new : Profile) (s : Watched) (w : Watcher)
        → Agrees s
        → Loses name s.watcher w
        → Kept name w
        → Agrees (record { watcher = w; watching = insert name new s.watching })
    inserted-Agrees name new s w agrees loses kept j p found = elim (text_eq.dec j name) [
      | yes same ↦ subst (λ k. Kept k w) (sym same) kept
      | no apart ↦ loses j apart (agrees j p (ground (arith, lookup-insert j name new s.watching)))
    ]

    abbrev pub Settles : Text → Watched → Watched → Type 0
    Settles name s s' = Agrees s' × Settled name s s' × Loses name s.watcher s'.watcher

    stop-Settled :
        (name : Text) (s : Watched) → Agrees s → Settles name s (stop_watching o glob name s)
    stop-Settled name s agrees =
        let w = (unwatch o glob name s.watcher).1 in
        (
          erased-Agrees name s w agrees (λ j a k. unwatch-Kept o glob j name s.watcher a k),
          erased-Settled name s w,
          (λ j a k. unwatch-Kept o glob j name s.watcher a k),
        )

    restarted-Settled :
        (name : Text) (p : Profile) (s : Watched) (r : Bool × Watcher)
        → Agrees s
        → lookup name profiles ≡ some p
        → p.auto_sync ≡ true
        → Loses name s.watcher r.1
        → (r.0 ≡ true → Kept name r.1)
        → Settles name s (restarted o glob name p s r)
    restarted-Settled name p s (true, w) agrees listed auto loses self = (
      inserted-Agrees name p s w agrees loses (self refl),
      inserted-Settled name p s w listed auto,
      loses,
    )
    restarted-Settled name p s (false, w) agrees listed auto loses self =
        (erased-Agrees name s w agrees loses, erased-Settled name s w, loses)

    restart-Settled :
        (name : Text) (p : Profile) (s : Watched) (r : Bool × Watcher)
        → Agrees s
        → lookup name profiles ≡ some p
        → p.auto_sync ≡ true
        → unwatch o glob name s.watcher ≡ r
        → Settles name s (restart o glob name p s r)
    restart-Settled name p s (true, w) agrees listed auto e =
        restarted-Settled name p s (watch o glob name p w) agrees listed auto
          (λ j a k.
            watch-Kept o glob j name p w
              (subst (λ v. Kept j v) (ap (λ r. r.1) e) (unwatch-Kept o glob j name s.watcher a k)))
          (watch_self o glob name p w)
    restart-Settled name p s (false, w) agrees listed auto e =
        let unknown : Kept name s.watcher → ⊥ =
          λ k. false-true (sym (ap (λ r. r.0) e) ∙ unwatch-fails o glob name s.watcher k) in
        (
          (λ j q found.
              subst (λ v. Kept j v) (ap (λ r. r.1) e)
                (unwatch-Kept o glob j name s.watcher
                  (λ same. unknown (subst (λ k. Kept k s.watcher) same (agrees j q found)))
                  (agrees j q found))),
          (λ j q found.
              inr
                ((λ same. unknown (subst (λ k. Kept k s.watcher) same (agrees j q found))), found)),
          (λ j a k.
              subst (λ v. Kept j v) (ap (λ r. r.1) e) (unwatch-Kept o glob j name s.watcher a k)),
        )

    pub adjust-Settled :
        (name : Text) (old : Profile) (r : Option Profile) (s : Watched)
        → Agrees s
        → lookup name profiles ≡ r
        → Kept name s.watcher
        → Settles name s (adjust o glob name old r s)
    adjust-Settled name old none s agrees listed kept = stop-Settled name s agrees
    adjust-Settled name old (some p) s agrees listed kept = by_auto p.auto_sync refl
      where
        same_context :
            (b : Bool)
            → p.auto_sync ≡ true
            → Settles name s (
                if b
                then restart o glob name p s (unwatch o glob name s.watcher)
                else record s { watching = insert name p s.watching })
        same_context true auto =
            restart-Settled name p s (unwatch o glob name s.watcher) agrees listed auto refl
        same_context false auto = (
          inserted-Agrees name p s s.watcher agrees (λ j a k. k) kept,
          inserted-Settled name p s s.watcher listed auto,
          (λ j a k. k),
        )

        by_auto :
            (b : Bool)
            → p.auto_sync ≡ b
            → Settles name s (
                if not b
                then stop_watching o glob name s
                else if not (p.context == old.context)
                then restart o glob name p s (unwatch o glob name s.watcher)
                else record s { watching = insert name p s.watching })
        by_auto false _ = stop-Settled name s agrees
        by_auto true auto = same_context (not (p.context == old.context)) auto
