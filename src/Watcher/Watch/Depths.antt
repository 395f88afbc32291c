-- ===== src/Watcher/Watch/Depths.antt =====
-- internal/watcher/watcher.go: the loops of `findMatchingProfiles`.
use sfync.Base.{ℕ, ◌≤◌, ◌≡◌, refl, sym, subst, ◌↔◌, ◌⊎◌, inl, inr, Text, List, [], ◌∷◌}
use sfync.Base.{Bool, true, false, if◌then◌else◌, ◌==◌, nat_eq, text_eq, arith, ltb}
use sfync.Base.{pos, negsuc, ltb_ℤ, ℤ_eq}
use sfync.Base.Dict.{Dict, lookup}
use sfync.Config.{Profile}
use sfync.Watcher.Watch.{is_under, depth_of, matches_in, max_depth, names_at}
use sfync.Watcher.Watch.Unwatching.{Has}

-- The file is in the context of a profile of that name in the list, which has that depth.
abbrev pub Matches : Text → Dict Text ℕ → Text → ℕ → Dict Text Profile → Type 0
Matches file_path depths name depth [] = ⊥
Matches file_path depths name depth ((n, profile) ∷ profiles) =
    ((name ≡ n)
      × (is_under file_path profile.context ≡ true)
      × (depth ≡ depth_of (lookup n depths)))
    ⊎ Matches file_path depths name depth profiles

abbrev pub Among : Text → ℕ → List (Text × ℕ) → Type 0
Among name depth [] = ⊥
Among name depth ((n, d) ∷ l) = ((name ≡ n) × (depth ≡ d)) ⊎ Among name depth l

module _ (file_path : Text) (depths : Dict Text ℕ) (name : Text) (depth : ℕ) where
  pub matches_in-Among :
      (profiles : Dict Text Profile)
      → Among name depth (matches_in file_path depths profiles)
        ↔ Matches file_path depths name depth profiles
  unfolding matches_in
  matches_in-Among [] = (λ h. h, λ h. h)
  matches_in-Among ((n, profile) ∷ profiles) =
      step (is_under file_path profile.context) refl (matches_in-Among profiles)
    where
      step :
          (b : Bool)
          → is_under file_path profile.context ≡ b
          → (Among name depth (matches_in file_path depths profiles)
              ↔ Matches file_path depths name depth profiles)
          → Among name depth (
              if b
              then (n, depth_of (lookup n depths)) ∷ matches_in file_path depths profiles
              else matches_in file_path depths profiles)
            ↔ Matches file_path depths name depth ((n, profile) ∷ profiles)
      step true e ih = (
        λ h. elim h [ inl (p, q) ↦ inl (p, e, q) | inr r ↦ inr (ih.0 r) ],
        λ h. elim h [ inl (p, _, q) ↦ inl (p, q) | inr r ↦ inr (ih.1 r) ],
      )
      step false e ih = (
        λ h. inr (ih.0 h),
        λ h. elim h [ inl (p, q, _) ↦ absurd (ground arith) | inr r ↦ ih.1 r ],
      )

-- `max_depth` over depths that are not negative.
largest : ℕ → List (Text × ℕ) → ℕ
largest m [] = m
largest m ((_, d) ∷ l) = largest (if ltb m d then d else m) l

max_depth-largest : (m : ℕ) (l : List (Text × ℕ)) → max_depth (pos m) l ≡ pos (largest m l)
unfolding max_depth largest
max_depth-largest m [] = refl
max_depth-largest m ((n, d) ∷ l) =
    step (ltb_ℤ (pos m) (pos d)) (ltb m d) (ground arith) (max_depth-largest d l)
      (max_depth-largest m l)
  where
    step :
        (b c : Bool)
        → b ≡ c
        → max_depth (pos d) l ≡ pos (largest d l)
        → max_depth (pos m) l ≡ pos (largest m l)
        → max_depth (if b then pos d else pos m) l ≡ pos (largest (if c then d else m) l)
    step true true e p q = p
    step false false e p q = q
    step true false e p q = cc
    step false true e p q = cc

-- The first depth takes the place of -1.
max_depth_starts :
    (n : Text) (d : ℕ) (l : List (Text × ℕ)) → max_depth (negsuc 0) ((n, d) ∷ l) ≡ pos (largest d l)
unfolding max_depth
max_depth_starts n d l = step (ltb_ℤ (negsuc 0) (pos d)) (ground arith)
  where
    step : (b : Bool) → b ≡ true → max_depth (if b then pos d else negsuc 0) l ≡ pos (largest d l)
    step true e = max_depth-largest d l
    step false e = cc

largest-above : (m : ℕ) (l : List (Text × ℕ)) → m ≤ largest m l
unfolding largest
largest-above m [] = omega arith
largest-above m ((_, d) ∷ l) = ground (arith, largest-above (if ltb m d then d else m) l)

largest-covers :
    (m : ℕ) (l : List (Text × ℕ)) (name : Text) (depth : ℕ)
    → Among name depth l
    → depth ≤ largest m l
unfolding largest
largest-covers m [] name depth h = elim h [ ]
largest-covers m ((_, d) ∷ l) name depth (inl (_, e)) =
    ground (arith, largest-above (if ltb m d then d else m) l)
largest-covers m ((_, d) ∷ l) name depth (inr h) =
    largest-covers (if ltb m d then d else m) l name depth h

-- Some entry is the deepest, if the start is not.
largest-attained :
    (m : ℕ) (l : List (Text × ℕ)) → (largest m l ≡ m) ⊎ ((n : Text) × Among n (largest m l) l)
unfolding largest
largest-attained m [] = inl refl
largest-attained m ((k, d) ∷ l) = step (ltb m d) (largest-attained (if ltb m d then d else m) l)
  where
    step :
        (b : Bool)
        → (largest (if b then d else m) l ≡ (if b then d else m))
          ⊎ ((n : Text) × Among n (largest (if b then d else m) l) l)
        → (largest (if b then d else m) l ≡ m)
          ⊎ ((n : Text) × Among n (largest (if b then d else m) l) ((k, d) ∷ l))
    step b (inr (n, h)) = inr (n, inr h)
    step true (inl e) = inr (k, inl (refl, e))
    step false (inl e) = inl e

names_at-Among :
    (name : Text) (m : ℕ) (l : List (Text × ℕ)) → Has name (names_at (pos m) l) ↔ Among name m l
unfolding names_at
names_at-Among name m [] = (λ h. h, λ h. h)
names_at-Among name m ((n, d) ∷ l) = step (pos d == pos m) refl (names_at-Among name m l)
  where
    step :
        (b : Bool)
        → (pos d == pos m) ≡ b
        → (Has name (names_at (pos m) l) ↔ Among name m l)
        → Has name (if b then n ∷ names_at (pos m) l else names_at (pos m) l)
          ↔ Among name m ((n, d) ∷ l)
    step true e ih = (
      λ h. elim h [ inl p ↦ inl (p, ground arith) | inr r ↦ inr (ih.0 r) ],
      λ h. elim h [ inl (p, q) ↦ inl p | inr r ↦ inr (ih.1 r) ],
    )
    step false e ih =
        (λ h. inr (ih.0 h), λ h. elim h [ inl (p, q) ↦ absurd (ground arith) | inr r ↦ ih.1 r ])

-- No entry is deeper.
abbrev pub Deepest : ℕ → List (Text × ℕ) → Type 0
Deepest depth l = (n : Text) (d : ℕ) → Among n d l → d ≤ depth

pub Deepest-iff :
    (name : Text) (l : List (Text × ℕ))
    → Has name (names_at (max_depth (negsuc 0) l) l)
      ↔ ((depth : ℕ) × Among name depth l × Deepest depth l)
unfolding names_at
Deepest-iff name [] = (λ h. elim h [ ], λ h. h.1)
Deepest-iff name ((k, d) ∷ l) =
    subst
      (λ z.
        Has name (names_at z whole) ↔ ((depth : ℕ) × Among name depth whole × Deepest depth whole))
      (sym (max_depth_starts k d l))
      (
        λ h. (top, (names_at-Among name top whole).0 h, covers),
        λ h.
            (names_at-Among name top whole).1
              (subst (λ z. Among name z whole) (agrees h.0 h.1 h.2 (largest-attained d l)) h.1),
      )
  where
    whole : List (Text × ℕ)
    whole = (k, d) ∷ l

    top : ℕ
    top = largest d l

    covers : Deepest (largest d l) ((k, d) ∷ l)
    covers n e (inl (_, same)) = omega (arith, largest-above d l)
    covers n e (inr h) = largest-covers d l n e h

    agrees :
        (depth : ℕ)
        → Among name depth ((k, d) ∷ l)
        → Deepest depth ((k, d) ∷ l)
        → (largest d l ≡ d) ⊎ ((n : Text) × Among n (largest d l) l)
        → depth ≡ largest d l
    agrees depth h deep (inl e) = omega (arith, covers name depth h, deep k d (inl (refl, refl)))
    agrees depth h deep (inr (n, a)) =
        omega (arith, covers name depth h, deep n (largest d l) (inr a))
