-- ===== src/Base/Perms.antt =====
-- Predicates on lists under rearrangement. It models no code of its own.
use mathlib.Core.Path.{subst}
use mathlib.Core.HLevel.{×_prop}
use mathlib.Core.Logic.{∥∥₁_elim}
use mathlib.Core.List.{List, [], ◌∷◌, Perm, Permᴰ}
use sfync.Base.Lists.{All}

module _ {ℓ κ} {A : Type ℓ} (P : A → Type κ) where
  All-permᴰ : {xs ys : List A} → Permᴰ xs ys → All P xs → All P ys
  All-permᴰ Permᴰ.nil h = tt
  All-permᴰ (Permᴰ.cons e p) h = (subst P e h.0, All-permᴰ p h.1)
  All-permᴰ (Permᴰ.swap e f) h = (subst P f h.1.0, (subst P e h.0, h.1.1))
  All-permᴰ (Permᴰ.trans p q) h = All-permᴰ q (All-permᴰ p h)

  All-prop : ((x : A) → IsProp (P x)) → (xs : List A) → IsProp (All P xs)
  All-prop p [] = hlevel
  All-prop p (x ∷ xs) = ×_prop (p x) (All-prop p xs)

  pub All-perm : ((x : A) → IsProp (P x)) → {xs ys : List A} → Perm xs ys → All P xs → All P ys
  All-perm p {ys = ys} perm h = ∥∥₁_elim perm (All-prop p ys) (λ q. All-permᴰ q h)
