-- ===== src/Transfer/Mirror/Order/Phases.antt =====
-- The order in which `sortActions` of internal/transfer/mirror.go leaves the actions.
use mathlib.Core.List.{perm_middle}
use mathlib.Core.List.Perm
use native.Mathlib.Nat.{ℕ_set}
use sfync.Base.{
  ℕ, suc, ◌≢◌, sym, ap, ◌∙◌, ◌≤◌, ◌<◌, ◌≡◌, ◌⊎◌, inl, inr, List, [], ◌∷◌, ◌++◌, Perm, arith,
}
use sfync.Base.{
  Bool, true, false, All, All-append, All-map, AllPairs, AllPairs-append, AllPairs-map,
  AllPairs-forall,
}
use sfync.Base.{All-perm, select, if◌then◌else◌}
use sfync.Transfer.Types.{MirrorEntry, MirrorAction}
use sfync.Transfer.Types.{action_upload, action_download, action_delete, action_delete_dir}
use sfync.Transfer.Types.{action_mkdir, action_skip, action_conflict}
use sfync.Transfer.Mirror.Order.{
  Less, IsStrictWeakOrder, SliceSort, Buckets, place, bucket, depth, shallower, deeper,
  sort_actions,
}

-- Directories are made first, then files are transferred, then files and at last directories are
-- deleted. Conflicts, which are only reported, stand behind.
abbrev pub phase : MirrorAction → ℕ
phase action_mkdir = 0
phase action_upload = 1
phase action_download = 1
phase action_delete = 2
phase action_delete_dir = 3
phase action_conflict = 4
phase action_skip = 5

abbrev pub counts : MirrorAction → Bool
counts action_skip = false
counts _ = true

abbrev pub is_active : MirrorEntry → Bool
is_active a = counts a.action

-- `a` may be executed before `b`.
abbrev pub Precedes : MirrorEntry → MirrorEntry → Type 0
Precedes a b =
    (phase a.action < phase b.action)
    ⊎ ((phase a.action ≡ phase b.action)
        × (a.action ≡ action_mkdir → depth a ≤ depth b)
        × (a.action ≡ action_delete_dir → depth b ≤ depth a))

shallower-IsStrictWeakOrder : IsStrictWeakOrder shallower
unfolding shallower
shallower-IsStrictWeakOrder = record {
  irreflexive = λ a. ground arith;
  transitive = λ a b c h k. ground arith;
  ties_transitive = λ a b c h k. ground arith;
}

deeper-IsStrictWeakOrder : IsStrictWeakOrder deeper
unfolding deeper
deeper-IsStrictWeakOrder = record {
  irreflexive = λ a. ground arith;
  transitive = λ a b c h k. ground arith;
  ties_transitive = λ a b c h k. ground arith;
}

-- Each bucket holds the actions of its phase.
abbrev InPhase : ℕ → List MirrorEntry → Type 0
InPhase k = All (λ a. phase a.action ≡ k)

bucket-InPhase :
    (l : List MirrorEntry)
    → let b = bucket l in
      InPhase 0 b.mkdirs
      × InPhase 1 b.transfers
      × InPhase 2 b.deletes
      × InPhase 3 b.delete_dirs
      × InPhase 4 b.conflicts
unfolding bucket
bucket-InPhase [] = (tt, tt, tt, tt, tt)
bucket-InPhase (a ∷ l) = ground (arith, bucket-InPhase l)

InPhase-perm : (k : ℕ) {xs ys : List MirrorEntry} → Perm xs ys → InPhase k ys → InPhase k xs
InPhase-perm k p = All-perm _ (λ a. ℕ_set _ _) (Perm.symm p)

abbrev From : ℕ → List MirrorEntry → Type 0
From k = All (λ a. k ≤ phase a.action)

InPhase-From : (k : ℕ) (xs : List MirrorEntry) → InPhase k xs → From k xs
InPhase-From k xs = All-map xs (λ a e. omega arith)

-- A phase before the later ones.
before_later :
    (k : ℕ) (xs ys : List MirrorEntry)
    → InPhase k xs
    → AllPairs Precedes xs
    → From (suc k) ys × AllPairs Precedes ys
    → From k (xs ++ ys) × AllPairs Precedes (xs ++ ys)
before_later k xs ys hx px (hy, py) = (
  All-append _ xs ys (InPhase-From k xs hx) (All-map ys (λ b h. omega arith) hy),
  AllPairs-append Precedes xs ys px py
      (All-map xs (λ a e. All-map ys (λ b h. inl (omega arith)) hy) hx),
)

-- Within a phase that has no order of its own.
within : (k : ℕ) (xs : List MirrorEntry) → k ≢ 0 → k ≢ 3 → InPhase k xs → AllPairs Precedes xs
within k xs h0 h3 hx =
    AllPairs-map {R = λ a b. Unit {0}} xs
      (λ a b e f _.
        inr (
          omega arith,
          λ m. absurd (h0 (sym e ∙ ap phase m)),
          λ m. absurd (h3 (sym e ∙ ap phase m)),
        ))
      hx (AllPairs-forall xs (λ a b. tt))

-- A sorted bucket, where a tie or better in `less` is what its phase asks for.
within_sorted :
    (k : ℕ) (S : SliceSort) (less : Less) (xs : List MirrorEntry)
    → IsStrictWeakOrder less
    → ((a b : MirrorEntry)
        → phase a.action ≡ k
        → phase b.action ≡ k
        → less b a ≡ false
        → Precedes a b)
    → InPhase k xs
    → InPhase k (S.slice less xs) × AllPairs Precedes (S.slice less xs)
within_sorted k S less xs w f hx =
    let h = InPhase-perm k (S.slice-perm less xs) hx in
    (h, AllPairs-map (S.slice less xs) f h (S.slice_sorted less xs w))

shallower-Precedes :
    (a b : MirrorEntry)
    → phase a.action ≡ 0
    → phase b.action ≡ 0
    → shallower b a ≡ false
    → Precedes a b
unfolding shallower
shallower-Precedes a b e f h = inr (omega arith, λ m. ground arith, λ m. ground arith)

deeper-Precedes :
    (a b : MirrorEntry)
    → phase a.action ≡ 3
    → phase b.action ≡ 3
    → deeper b a ≡ false
    → Precedes a b
unfolding deeper
deeper-Precedes a b e f h = inr (omega arith, λ m. ground arith, λ m. ground arith)

-- Whatever `sort.Slice` makes of ties, every action stands behind all that must come before it:
-- the phases follow one another, a directory is made after every shallower one, and deleted
-- after every deeper one.
pub sort_actions_ordered :
    (S : SliceSort) (actions : List MirrorEntry) → AllPairs Precedes (sort_actions S actions)
unfolding sort_actions
sort_actions_ordered S actions =
    let b = bucket actions in
    let (h0, h1, h2, h3, h4) = bucket-InPhase actions in
    let m =
      within_sorted 0 S shallower b.mkdirs shallower-IsStrictWeakOrder shallower-Precedes h0 in
    let d = within_sorted 3 S deeper b.delete_dirs deeper-IsStrictWeakOrder deeper-Precedes h3 in
    (before_later 0 _ _ m.0 m.1 (
      before_later 1 _ _ h1 (within 1 b.transfers (omega arith) (omega arith) h1) (
        before_later 2 _ _ h2 (within 2 b.deletes (omega arith) (omega arith) h2) (
          before_later 3 _ _ d.0 d.1 (
            InPhase-From 4 b.conflicts h4,
            within 4 b.conflicts (omega arith) (omega arith) h4,
          ))))).1

contents : Buckets → List MirrorEntry
contents b = b.mkdirs ++ (b.transfers ++ (b.deletes ++ (b.delete_dirs ++ b.conflicts)))

-- To put an element in front of the part behind `xs` is to put it in front of the whole.
into {ℓ} :
    {A : Type ℓ} {a : A} (xs : List A) {ys zs : List A}
    → Perm ys (a ∷ zs)
    → Perm (xs ++ ys) (a ∷ (xs ++ zs))
into xs p = Perm.trans (Perm.append_left xs p) (perm_middle xs _)

contents-place :
    (a : MirrorEntry) (k : MirrorAction) (b : Buckets)
    → Perm (contents (place a k b)) (if counts k then a ∷ contents b else contents b)
unfolding contents place
contents-place a action_mkdir b = Perm.refl _
contents-place a action_upload b = into b.mkdirs (Perm.refl _)
contents-place a action_download b = into b.mkdirs (Perm.refl _)
contents-place a action_delete b = into b.mkdirs (into b.transfers (Perm.refl _))
contents-place a action_delete_dir b =
    into b.mkdirs (into b.transfers (into b.deletes (Perm.refl _)))
contents-place a action_conflict b =
    into b.mkdirs (into b.transfers (into b.deletes (into b.delete_dirs (Perm.refl _))))
contents-place a action_skip b = Perm.refl _

if_cons-perm :
    (t : Bool) (a : MirrorEntry) {xs ys : List MirrorEntry}
    → Perm xs ys
    → Perm (if t then a ∷ xs else xs) (if t then a ∷ ys else ys)
if_cons-perm true a p = Perm.cons a p
if_cons-perm false a p = p

contents_bucket-perm : (l : List MirrorEntry) → Perm (contents (bucket l)) (select is_active l)
unfolding contents bucket
contents_bucket-perm [] = Perm.refl []
contents_bucket-perm (a ∷ l) =
    Perm.trans (contents-place a a.action (bucket l))
      (if_cons-perm (is_active a) a (contents_bucket-perm l))

-- The sorted list holds the actions that were given but for the skips, each as often.
pub sort_actions-perm :
    (S : SliceSort) (actions : List MirrorEntry)
    → Perm (sort_actions S actions) (select is_active actions)
unfolding sort_actions contents
sort_actions-perm S actions =
    let b = bucket actions in
    Perm.trans
      (Perm.append (S.slice-perm shallower b.mkdirs) (
        Perm.append_left b.transfers (
          Perm.append_left b.deletes
            (Perm.append_right b.conflicts (S.slice-perm deeper b.delete_dirs)))))
      (contents_bucket-perm actions)
