-- ===== src/Watcher/Watch/Matching.antt =====
-- internal/watcher/watcher.go: what `findMatchingProfiles` returns.
use sfync.Base.{ℕ, ◌≤◌, ◌≡◌, sym, ap, ◌∙◌, ◌↔◌, inl, inr, Text, some, [], ◌∷◌}
use sfync.Base.{true, nat_eq, text_eq, arith, count_byte}
use sfync.Base.Dict.{Dict, lookup, NodupKeys, lookup-nil, lookup-cons}
use sfync.Config.{Profile}
use sfync.Watcher.Watch.{Watcher, is_under, depth_of, matches_in, find_matching_profiles}
use sfync.Watcher.Watch.Unwatching.{Has}
use sfync.Watcher.Watch.Contexts.{Holds, is_under-Holds, IsTracked}
use sfync.Watcher.Watch.Depths.{Matches, Among, matches_in-Among, Deepest-iff}

-- The profile of that name has a context that holds the file and has that many slashes.
abbrev pub Covers : Watcher → Text → Text → ℕ → Type 0
Covers w file_path name depth =
    (profile : Profile) × (lookup name w.profiles ≡ some profile)
    × Holds file_path profile.context
    × (depth ≡ count_byte b'/' profile.context)

module _ (file_path : Text) (w : Watcher) (tracked : IsTracked w) (name : Text) (depth : ℕ) where
  -- An entry of the list, found by its name.
  abbrev Listed : Dict Text Profile → Type 0
  Listed profiles =
      (profile : Profile) × (lookup name profiles ≡ some profile)
      × (is_under file_path profile.context ≡ true)
      × (depth ≡ depth_of (lookup name w.context_depths))

  Matches-Listed :
      (profiles : Dict Text Profile)
      → NodupKeys profiles
      → Matches file_path w.context_depths name depth profiles ↔ Listed profiles
  Matches-Listed [] u = (λ h. elim h [ ], λ h. absurd (cc (h.1, lookup-nil name)))
  Matches-Listed ((n, p) ∷ profiles) (fresh, u) =
      let ih = Matches-Listed profiles u in
      let at = lookup-cons name n p profiles in
      (
        λ h. elim h [
          | inl (same, under, e) ↦ (p, ground arith, under, cc (e, same))
          | inr r ↦ let (profile, found, under, e) = ih.0 r in (profile, ground arith, under, e)
        ],
        λ h.
            let (profile, found, under, e) = h in
            elim (text_eq.dec name n) [
              | yes same ↦ inl (same, ground arith, cc (e, same))
              | no ne ↦ inr (ih.1 (profile, ground arith, under, e))
            ],
      )

  Listed-Covers : Listed w.profiles ↔ Covers w file_path name depth
  Listed-Covers = (
    λ h.
        let (profile, found, under, e) = h in
        (
          profile,
          found,
          (is_under-Holds file_path profile.context).0 under,
          e ∙ ap (λ d. depth_of d) (tracked.depths name profile found),
        ),
    λ h.
        let (profile, found, holds, e) = h in
        (
          profile,
          found,
          (is_under-Holds file_path profile.context).1 holds,
          e ∙ sym (ap (λ d. depth_of d) (tracked.depths name profile found)),
        ),
  )

  Among-Covers :
      Among name depth (matches_in file_path w.context_depths w.profiles)
      ↔ Covers w file_path name depth
  Among-Covers =
      let same = matches_in-Among file_path w.context_depths name depth w.profiles in
      let list = Matches-Listed w.profiles tracked.once in
      (λ h. Listed-Covers.0 (list.0 (same.0 h)), λ h. same.1 (list.1 (Listed-Covers.1 h)))

-- The names that `findMatchingProfiles` returns are those of the profiles of which the context is
-- the file, or, with a slash behind it, begins the path of the file, and which have the most slashes
-- in their context of all those.
pub find_matching_profiles_iff :
    (file_path : Text) (w : Watcher) (name : Text)
    → IsTracked w
    → Has name (find_matching_profiles file_path w) ↔ (
        (depth : ℕ) × Covers w file_path name depth
        × ((n : Text) (d : ℕ) → Covers w file_path n d → d ≤ depth))
unfolding find_matching_profiles
find_matching_profiles_iff file_path w name tracked =
    let found = Deepest-iff name (matches_in file_path w.context_depths w.profiles) in
    let same = λ (n : Text) (d : ℕ). Among-Covers file_path w tracked n d in
    (
      λ h.
          let (depth, here, deep) = found.0 h in
          (depth, (same name depth).0 here, λ n d m. deep n d ((same n d).1 m)),
      λ h.
          let (depth, here, deep) = h in
          found.1 (depth, (same name depth).1 here, λ n d m. deep n d ((same n d).0 m)),
    )
