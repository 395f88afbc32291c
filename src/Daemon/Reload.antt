-- ===== src/Daemon/Reload.antt =====
-- cmd/daemon.go, `handleConfigReload`: what `watching` stands for behind it.
use sfync.Base.{
  ◌≡◌, ◌≢◌, refl, ap, ◌∙◌, ◌⊎◌, inl, inr, Text, none, some, [], ◌∷◌, Bool, true, false,
}
use sfync.Base.{not, if◌then◌else◌, is_some, ◌==◌, nat_eq, text_eq, arith}
use sfync.Base.Dict.{Dict, NodupKeys, lookup, lookup-cons, lookup-nil}
use sfync.Config.{Profile}
use sfync.Ignore.{Matcher}
use sfync.Watcher.Watch.{Outside, Watcher, watch}
use sfync.Daemon.{Watched, entered, adjust, adjust_all, start_one, start_all, handle_config_reload}
use sfync.Daemon.Watches.{Kept, watch-Kept, watch_self}
use sfync.Daemon.Settling.{Agrees, Follows, inserted-Settled, inserted-Agrees, adjust-Settled}

-- The keys behind the first one.
tail_ne :
    (j name : Text) (rest : Dict Text Profile) (q : Profile)
    → lookup name rest ≡ none
    → lookup j rest ≡ some q
    → j ≢ name
tail_ne j name rest q fresh found same =
    let e : lookup j rest ≡ none = ap (λ k. lookup k rest) same ∙ fresh in absurd (cc)

tail_lookup :
    (j name : Text) (old : Profile) (rest : Dict Text Profile) (q : Profile)
    → lookup name rest ≡ none
    → lookup j rest ≡ some q
    → lookup j ((name, old) ∷ rest) ≡ some q
tail_lookup j name old rest q fresh found =
    let apart = tail_ne j name rest q fresh found in ground (arith, lookup-cons j name old rest)

module _ (o : Outside) (glob : Matcher) where
  module _ (profiles : Dict Text Profile) where
    -- A profile that counts as watched follows the configuration, or is yet to be looked at.
    abbrev Pending : Dict Text Profile → Watched → Type 0
    Pending rest s =
        (j : Text) (p : Profile)
        → lookup j s.watching ≡ some p
        → ((lookup j profiles ≡ some p) × (p.auto_sync ≡ true))
          ⊎ ((q : Profile) × (lookup j rest ≡ some q))

    -- The first loop.
    adjust_all-Follows :
        (rest : Dict Text Profile) (s : Watched)
        → NodupKeys rest
        → Agrees s
        → Pending rest s
        → ((j : Text) (q : Profile) → lookup j rest ≡ some q → Kept j s.watcher)
        → Agrees (adjust_all o glob profiles rest s)
          × Follows profiles (adjust_all o glob profiles rest s)
    unfolding adjust_all
    adjust_all-Follows [] s nodup agrees pending kept = (
      agrees,
      (λ j p found. elim (pending j p found) [
        | inl good ↦ good
        | inr (q, e) ↦ absurd (ground (arith, lookup-nil {V = Profile} j))
      ]),
    )
    adjust_all-Follows ((name, old) ∷ rest) s (fresh, nodup) agrees pending kept =
        let s' = adjust o glob name old (lookup name profiles) s in
        let (agrees', settled, loses) =
          adjust-Settled o glob profiles name old (lookup name profiles) s agrees refl
            (kept name old (ground (arith, lookup-cons name name old rest))) in
        adjust_all-Follows rest s' nodup agrees'
          (λ j p found. elim (settled j p found) [
            | inl good ↦ inl good
            | inr (apart, before) ↦ elim (pending j p before) [
              | inl good ↦ inl good
              | inr (q, e) ↦ inr (q, ground (arith, lookup-cons j name old rest))
            ]
          ])
          (λ j q found.
            loses j (tail_ne j name rest q fresh found)
              (kept j q (tail_lookup j name old rest q fresh found)))

    abbrev Both : Watched → Type 0
    Both s = Agrees s × Follows profiles s

    entered-Follows :
        (name : Text) (p : Profile) (s : Watched) (r : Bool × Watcher)
        → Both s
        → lookup name profiles ≡ some p
        → p.auto_sync ≡ true
        → ((j : Text) → Kept j s.watcher → Kept j r.1)
        → (r.0 ≡ true → Kept name r.1)
        → Both (entered o glob name p s r)
    entered-Follows name p s (true, w) (agrees, follows) listed auto grows self = (
      inserted-Agrees o glob profiles name p s w agrees (λ j _ k. grows j k) (self refl),
      (λ j q found. elim (inserted-Settled o glob profiles name p s w listed auto j q found) [
        | inl good ↦ good
        | inr (_, before) ↦ follows j q before
      ]),
    )
    entered-Follows name p s (false, w) (agrees, follows) listed auto grows self =
        ((λ j q found. grows j (agrees j q found)), follows)

    start_one-Follows :
        (name : Text) (p : Profile) (s : Watched)
        → Both s
        → lookup name profiles ≡ some p
        → Both (start_one o glob name p s)
    start_one-Follows name p s both listed = by_auto p.auto_sync refl
      where
        unless :
            (b c : Bool)
            → p.auto_sync ≡ true
            → Both (
                if b
                then s
                else if c
                then s
                else entered o glob name p s (watch o glob name p s.watcher))
        unless true c auto = both
        unless false true auto = both
        unless false false auto =
            entered-Follows name p s (watch o glob name p s.watcher) both listed auto
              (λ j k. watch-Kept o glob j name p s.watcher k) (watch_self o glob name p s.watcher)

        by_auto :
            (b : Bool)
            → p.auto_sync ≡ b
            → Both (
                if not b
                then s
                else if is_some (lookup name s.watching)
                then s
                else if p.context == []
                then s
                else entered o glob name p s (watch o glob name p s.watcher))
        by_auto false _ = both
        by_auto true auto = unless (is_some (lookup name s.watching)) (p.context == []) auto

    -- The second loop.
    start_all-Follows :
        (rest : Dict Text Profile) (s : Watched)
        → NodupKeys rest
        → ((j : Text) (p : Profile) → lookup j rest ≡ some p → lookup j profiles ≡ some p)
        → Both s
        → Both (start_all o glob rest s)
    unfolding start_all
    start_all-Follows [] s nodup listed both = both
    start_all-Follows ((name, p) ∷ rest) s (fresh, nodup) listed both =
        start_all-Follows rest (start_one o glob name p s) nodup
          (λ j q found. listed j q (tail_lookup j name p rest q fresh found))
          (start_one-Follows name p s both
            (listed name p (ground (arith, lookup-cons name name p rest))))

    -- If the maps hold each name once and the watcher knows every profile that counts as watched, then
    -- this is so after a reload of the configuration, and every profile that counts as watched is then
    -- the one of the new configuration under its name, and has automatic sync on.
    pub handle_config_reload-Follows :
        (s : Watched)
        → NodupKeys profiles
        → NodupKeys s.watching
        → Agrees s
        → Agrees (handle_config_reload o glob profiles s)
          × Follows profiles (handle_config_reload o glob profiles s)
    unfolding handle_config_reload
    handle_config_reload-Follows s nodup nodup' agrees =
        start_all-Follows profiles (adjust_all o glob profiles s.watching s) nodup
          (λ j p found. found)
          (adjust_all-Follows s.watching s nodup' agrees (λ j p found. inr (p, found)) agrees)
