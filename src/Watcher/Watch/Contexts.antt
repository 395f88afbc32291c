-- ===== src/Watcher/Watch/Contexts.antt =====
-- internal/watcher/watcher.go: which files a context holds, and the depths that the watcher keeps.
use sfync.Base.{
  ℕ, ◌≡◌, refl, sym, ap, ◌∙◌, ◌↔◌, ◌⊎◌, inl, inr, Text, codes, Option, none, some, List,
}
use sfync.Base.{
  [], ◌∷◌, ◌++◌, Bool, true, false, ◌&&◌, ◌||◌, if◌then◌else◌, ◌==◌, text_eq, nat_eq, arith,
}
use sfync.Base.{has_prefix, count_byte}
use sfync.Base.Dict.{
  lookup, insert, NodupKeys, lookup-nil, lookup-insert, lookup-erase, insert-NodupKeys,
  erase-NodupKeys,
}
use sfync.Base.Paths.{clean}
use sfync.Config.{Profile}
use sfync.Ignore.{Matcher}
use sfync.Watcher.Watch.{
  Outside, Watcher, new_watcher, is_under, add_recursive, watch, unwatch, unwatch_found,
  get_patterns, cached,
}

-- A file is a context, or its path is that of the context, a slash, and more.
abbrev pub Holds : Text → Text → Type 0
Holds file_path context =
    (file_path ≡ context) ⊎ ((rest : Text) × (file_path ≡ context ++ (codes "/" ++ rest)))

has_prefix_iff : (s p : Text) → has_prefix s p ≡ true ↔ ((rest : Text) × (s ≡ p ++ rest))
unfolding has_prefix
has_prefix_iff s [] = (λ _. (s, refl), λ _. refl)
has_prefix_iff [] (y ∷ p) = (λ h. absurd (cc), λ h. absurd (cc (h.1)))
has_prefix_iff (x ∷ s) (y ∷ p) =
    let ih = has_prefix_iff s p in
    (
      λ h.
          let (same, more) = both (x == y) (has_prefix s p) h in
          let (rest, e) = ih.0 more in (rest, cons_cong (ground arith) e),
      λ h.
          let (rest, e) = h in
          let more = ih.1 (rest, cc (e)) in let same : x ≡ y = cc (e) in ground arith,
    )
  where
    both : (a b : Bool) → (a && b) ≡ true → (a ≡ true) × (b ≡ true)
    both true b h = (refl, h)
    both false b h = absurd (cc)

    cons_cong : {a b : ℕ} {u v : Text} → a ≡ b → u ≡ v → a ∷ u ≡ b ∷ v
    cons_cong e f = cc (e, f)

append_assoc : (a b c : Text) → (a ++ b) ++ c ≡ a ++ (b ++ c)
append_assoc [] b c = refl
append_assoc (x ∷ a) b c = ap (λ l. x ∷ l) (append_assoc a b c)

pub is_under-Holds :
    (file_path context : Text) → is_under file_path context ≡ true ↔ Holds file_path context
unfolding is_under
is_under-Holds file_path context = (
  λ h. from (has_prefix file_path (context ++ codes "/")) refl (file_path == context) refl h,
  λ h. elim h [
    | inl e ↦ ground arith
    | inr below ↦
        let starts = prefix.1 (below.0, below.1 ∙ sym (append_assoc context (codes "/") below.0)) in
        ground arith
  ],
)
  where
    prefix :
        has_prefix file_path (context ++ codes "/") ≡ true
        ↔ ((rest : Text) × (file_path ≡ (context ++ codes "/") ++ rest))
    prefix = has_prefix_iff file_path (context ++ codes "/")

    from :
        (a : Bool)
        → has_prefix file_path (context ++ codes "/") ≡ a
        → (b : Bool) → (file_path == context) ≡ b
        → (a || b) ≡ true
        → Holds file_path context
    from true e b f h =
        let (rest, same) = prefix.0 e in inr (rest, same ∙ append_assoc context (codes "/") rest)
    from false e true f h = inl (ground arith)
    from false e false f h = absurd (cc)

-- The watcher knows each profile once, and with it how many slashes its context has.
pub record IsTracked (w : Watcher) : Type 0 where
  pub once : NodupKeys w.profiles
  pub depths :
      (name : Text) (profile : Profile)
      → lookup name w.profiles ≡ some profile
      → lookup name w.context_depths ≡ some (count_byte b'/' profile.context)

pub new_watcher-IsTracked : IsTracked new_watcher
unfolding new_watcher
new_watcher-IsTracked = record {
  once = tt;
  depths = λ name profile h. absurd (cc (h, lookup-nil name));
}

abbrev snd : Bool × Watcher → Watcher
snd r = r.1

module _ (o : Outside) (glob : Matcher) where
  cached_keeps :
      (context : Text) (cached_patterns : Option (List Text)) (w : Watcher)
      → ((cached o glob context cached_patterns w).1.profiles ≡ w.profiles)
        × ((cached o glob context cached_patterns w).1.context_depths ≡ w.context_depths)
  cached_keeps context none w = (refl, refl)
  cached_keeps context (some _) w = (refl, refl)

  add_recursive_keeps :
      (root : Text) (w : Watcher)
      → ((add_recursive o glob root w).1.profiles ≡ w.profiles)
        × ((add_recursive o glob root w).1.context_depths ≡ w.context_depths)
  unfolding add_recursive get_patterns
  add_recursive_keeps root w = cached_keeps root (lookup root w.syncignore_cache) w

  IsTracked-same :
      (w w' : Watcher)
      → w'.profiles ≡ w.profiles
      → w'.context_depths ≡ w.context_depths
      → IsTracked w
      → IsTracked w'
  IsTracked-same w w' e f t = record {
    once = rw e t.once;
    depths = λ name profile h.
        ap (λ d. lookup name d) f ∙ t.depths name profile (ap (λ d. lookup name d) (sym e) ∙ h);
  }

  stored-IsTracked :
      (name : Text) (profile : Profile) (w : Watcher)
      → IsTracked w
      → IsTracked (record w {
        profiles = insert name profile w.profiles;
        context_depths = insert name (count_byte b'/' profile.context) w.context_depths;
      })
  stored-IsTracked name profile w t = record {
    once = insert-NodupKeys name profile w.profiles t.once;
    depths = λ n p h. ground (
      arith,
      lookup-insert n name profile w.profiles,
      lookup-insert n name (count_byte b'/' profile.context) w.context_depths,
      t.depths n p,
    );
  }

  -- `Watch` and `Unwatch` keep it so.
  pub watch-IsTracked :
      (name : Text) (profile : Profile) (w : Watcher)
      → IsTracked w
      → IsTracked (watch o glob name profile w).1
  unfolding watch
  watch-IsTracked name profile w t =
      step (o.missing_dir (clean profile.context)) (add_recursive o glob kept.context stored) (
        IsTracked-same stored (add_recursive o glob kept.context stored).1 same.0 same.1
          (stored-IsTracked name kept w t))
    where
      kept : Profile
      kept = record profile { context = clean profile.context }

      stored : Watcher
      stored = record w {
        profiles = insert name kept w.profiles;
        context_depths = insert name (count_byte b'/' kept.context) w.context_depths;
      }

      same :
          ((add_recursive o glob kept.context stored).1.profiles ≡ stored.profiles)
          × ((add_recursive o glob kept.context stored).1.context_depths ≡ stored.context_depths)
      same = add_recursive_keeps kept.context stored

      step :
          (b : Bool) (added : Bool × Watcher)
          → IsTracked added.1
          → IsTracked (snd (if b then (false, w) else added))
      step true added k = t
      step false added k = k

  pub unwatch-IsTracked :
      (name : Text) (w : Watcher) → IsTracked w → IsTracked (unwatch o glob name w).1
  unfolding unwatch
  unwatch-IsTracked name w t = step (lookup name w.profiles)
    where
      step : (found : Option Profile) → IsTracked (unwatch_found o glob name found w).1
      step none = t
      step (some profile) = record {
        once = erase-NodupKeys name w.profiles t.once;
        depths = λ n p h. ground (
          arith,
          lookup-erase n name w.profiles,
          lookup-erase n name w.context_depths,
          t.depths n p,
        );
      }
