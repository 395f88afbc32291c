-- ===== src/Daemon/Watches.antt =====
-- cmd/daemon.go, `handleConfigReload`: what `Watch` and `Unwatch` do to the profiles.
use sfync.Base.{
  ◌≡◌, ◌≢◌, refl, ap, ◌∙◌, ◌⊎◌, inl, inr, Text, Option, none, some, List, Bool, true, false,
}
use sfync.Base.{if◌then◌else◌, nat_eq, text_eq, arith, count_byte}
use sfync.Base.Paths.{clean}
use sfync.Base.Dict.{lookup, insert, lookup-insert, lookup-erase}
use sfync.Config.{Profile}
use sfync.Ignore.{Matcher}
use sfync.Watcher.Watch.{
  Outside, Watcher, get_patterns, cached, add_recursive, watch, unwatch, unwatch_found,
}

-- The watcher has a profile of that name.
abbrev pub Kept : Text → Watcher → Type 0
Kept j w = (q : Profile) × (lookup j w.profiles ≡ some q)

module _ (o : Outside) (glob : Matcher) where
  cached-profiles :
      (context : Text) (c : Option (List Text)) (w : Watcher)
      → (cached o glob context c w).1.profiles ≡ w.profiles
  cached-profiles context none w = refl
  cached-profiles context (some _) w = refl

  add_recursive-profiles :
      (root : Text) (w : Watcher) → (add_recursive o glob root w).1.profiles ≡ w.profiles
  unfolding add_recursive get_patterns
  add_recursive-profiles root w = cached-profiles root (lookup root w.syncignore_cache) w

  -- `Watch` stores the profile, or fails and changes nothing.
  watch_cases :
      (name : Text) (p : Profile) (w : Watcher)
      → (((watch o glob name p w).0 ≡ false) × ((watch o glob name p w).1.profiles ≡ w.profiles))
        ⊎ ((watch o glob name p w).1.profiles
            ≡ insert name (record p { context = clean p.context }) w.profiles)
  unfolding watch
  watch_cases name p w =
      let context = clean p.context in
      let stored = record w {
        profiles = insert name (record p { context = context }) w.profiles;
        context_depths = insert name (count_byte b'/' context) w.context_depths;
      } in
      by_dir (o.missing_dir context) stored (add_recursive-profiles context stored)
    where
      by_dir :
          (b : Bool) (stored : Watcher)
          → (add_recursive o glob (clean p.context) stored).1.profiles ≡ stored.profiles
          → (((if b then (false, w) else add_recursive o glob (clean p.context) stored).0 ≡ false)
              × ((if b
                    then (false, w)
                    else add_recursive o glob (clean p.context) stored).1.profiles
                  ≡ w.profiles))
            ⊎ ((if b then (false, w) else add_recursive o glob (clean p.context) stored).1.profiles
                ≡ stored.profiles)
      by_dir true stored e = inl (refl, refl)
      by_dir false stored e = inr e

  pub watch-Kept :
      (j name : Text) (p : Profile) (w : Watcher) → Kept j w → Kept j (watch o glob name p w).1
  watch-Kept j name p w (q, found) = elim (watch_cases name p w) [
    | inl (_, e) ↦ (q, ap (λ m. lookup j m) e ∙ found)
    | inr e ↦ elim (text_eq.dec j name) [
      | yes same ↦ (
        record p { context = clean p.context },
        ap (λ m. lookup j m) e
            ∙ ground
                (arith, lookup-insert j name (record p { context = clean p.context }) w.profiles),
      )
      | no apart ↦ (
        q,
        ap (λ m. lookup j m) e
            ∙ ground
                (arith, lookup-insert j name (record p { context = clean p.context }) w.profiles),
      )
    ]
  ]

  pub watch_self :
      (name : Text) (p : Profile) (w : Watcher)
      → (watch o glob name p w).0 ≡ true
      → Kept name (watch o glob name p w).1
  watch_self name p w fine = elim (watch_cases name p w) [
    | inl (failed, _) ↦ absurd (cc)
    | inr e ↦ (
      record p { context = clean p.context },
      ap (λ m. lookup name m) e
          ∙ ground
              (arith, lookup-insert name name (record p { context = clean p.context }) w.profiles),
    )
  ]

  pub unwatch-Kept :
      (j name : Text) (w : Watcher) → j ≢ name → Kept j w → Kept j (unwatch o glob name w).1
  unfolding unwatch
  unwatch-Kept j name w apart (q, found) = by_found (lookup name w.profiles)
    where
      by_found : (r : Option Profile) → Kept j (unwatch_found o glob name r w).1
      by_found none = (q, found)
      by_found (some p) = (q, ground (arith, lookup-erase j name w.profiles))

  -- `Unwatch` fails only on a name that the watcher does not know.
  pub unwatch-fails : (name : Text) (w : Watcher) → Kept name w → (unwatch o glob name w).0 ≡ true
  unfolding unwatch
  unwatch-fails name w (q, found) = ap (λ r. (unwatch_found o glob name r w).0) found
