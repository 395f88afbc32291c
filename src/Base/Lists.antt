-- ===== src/Base/Lists.antt =====
-- Lists measured by native numbers, selection by a Boolean test, and predicates by recursion. It
-- models no code of its own.
use Prim.Native.Nat.{ℕ, zero, suc, ◌+◌, ◌≤◌, ◌<◌}
use mathlib.Core.Path.{◌≡◌, ap, refl}
use mathlib.Core.Bool.{Bool}
use mathlib.Core.List.{List, [], ◌∷◌, ◌++◌}
use native.Mathlib.Omega.{arith}
use sfync.Base.Compare.{if◌then◌else◌, ◌==◌, nat_eq}

module _ {ℓ} {A : Type ℓ} where
  abbrev pub length : List A → ℕ
  length [] = 0
  length (x ∷ xs) = suc (length xs)

  pub length-append : (xs ys : List A) → length (xs ++ ys) ≡ length xs + length ys
  length-append [] ys = omega arith
  length-append (x ∷ xs) ys = omega (arith, length-append xs ys)

  -- The elements that pass a test, in order.
  abbrev pub select : (A → Bool) → List A → List A
  select p [] = []
  select p (x ∷ xs) = let rest = select p xs in if p x then x ∷ rest else rest

  pub select-append :
      (p : A → Bool) (xs ys : List A) → select p (xs ++ ys) ≡ select p xs ++ select p ys
  select-append p [] ys = refl
  select-append p (x ∷ xs) ys = ground (arith, select-append p xs ys)

  pub length-select-le : (p : A → Bool) (xs : List A) → length (select p xs) ≤ length xs
  length-select-le p [] = omega arith
  length-select-le p (x ∷ xs) = ground (arith, length-select-le p xs)

  abbrev pub All {κ} : (A → Type κ) → List A → Type κ
  All P [] = Unit
  All P (x ∷ xs) = P x × All P xs

  pub All-append {κ} : (P : A → Type κ) (xs ys : List A) → All P xs → All P ys → All P (xs ++ ys)
  All-append P [] ys hx hy = hy
  All-append P (x ∷ xs) ys hx hy = (hx.0, All-append P xs ys hx.1 hy)

  -- Each element stands in the relation to the next one.
  abbrev pub Chain {κ} : (A → A → Type κ) → List A → Type κ
  Chain R [] = Unit
  Chain R (x ∷ []) = Unit
  Chain R (x ∷ y ∷ xs) = R x y × Chain R (y ∷ xs)

  -- Each element stands in the relation to every later one.
  abbrev pub AllPairs {κ} : (A → A → Type κ) → List A → Type κ
  AllPairs R [] = Unit
  AllPairs R (x ∷ xs) = All (R x) xs × AllPairs R xs

  pub All-map {κ μ} :
      {P : A → Type κ} {Q : A → Type μ} (xs : List A) → ((x : A) → P x → Q x) → All P xs → All Q xs
  All-map [] f h = tt
  All-map (x ∷ xs) f h = (f x h.0, All-map xs f h.1)

  pub AllPairs-append {κ} :
      (R : A → A → Type κ) (xs ys : List A)
      → AllPairs R xs
      → AllPairs R ys
      → All (λ x. All (R x) ys) xs
      → AllPairs R (xs ++ ys)
  AllPairs-append R [] ys hx hy c = hy
  AllPairs-append R (x ∷ xs) ys hx hy c =
      (All-append (R x) xs ys hx.0 c.0, AllPairs-append R xs ys hx.1 hy c.1)

  pub All-forall {κ} : {P : A → Type κ} (xs : List A) → ((x : A) → P x) → All P xs
  All-forall [] f = tt
  All-forall (x ∷ xs) f = (f x, All-forall xs f)

  All-map₂ {κ μ ν} :
      {P : A → Type κ} {R : A → Type μ} {Q : A → Type ν} (xs : List A)
      → ((x : A) → P x → R x → Q x)
      → All P xs
      → All R xs
      → All Q xs
  All-map₂ [] f h r = tt
  All-map₂ (x ∷ xs) f h r = (f x h.0 r.0, All-map₂ xs f h.1 r.1)

  -- From a relation to a weaker one, among elements that all have a property.
  pub AllPairs-map {κ μ ν} :
      {P : A → Type κ} {R : A → A → Type μ} {Q : A → A → Type ν} (xs : List A)
      → ((x y : A) → P x → P y → R x y → Q x y)
      → All P xs
      → AllPairs R xs
      → AllPairs Q xs
  AllPairs-map [] f h r = tt
  AllPairs-map (x ∷ xs) f h r =
      (All-map₂ xs (λ y p q. f x y h.0 p q) h.1 r.0, AllPairs-map xs f h.1 r.1)

  pub AllPairs-forall {κ} : {R : A → A → Type κ} (xs : List A) → ((x y : A) → R x y) → AllPairs R xs
  AllPairs-forall [] f = tt
  AllPairs-forall (x ∷ xs) f = (All-forall xs (f x), AllPairs-forall xs f)

-- How often a number occurs.
abbrev pub count : ℕ → List ℕ → ℕ
count c [] = 0
count c (x ∷ xs) = (if x == c then 1 else 0) + count c xs

-- The first occurrence of a number taken out.
unfoldable pub remove : ℕ → List ℕ → List ℕ
remove c [] = []
remove c (x ∷ xs) = if x == c then xs else x ∷ remove c xs

pub count-remove :
    (a c : ℕ) (xs : List ℕ)
    → 0 < count c xs
    → count a xs ≡ (if c == a then 1 else 0) + count a (remove c xs)
unfolding remove
count-remove a c [] h = absurd (omega arith)
count-remove a c (x ∷ xs) h = ground (arith, count-remove a c xs)

pub length-remove : (c : ℕ) (xs : List ℕ) → 0 < count c xs → length xs ≡ suc (length (remove c xs))
unfolding remove
length-remove c [] h = absurd (omega arith)
length-remove c (x ∷ xs) h = ground (arith, length-remove c xs)

pub count-append : (c : ℕ) (xs ys : List ℕ) → count c (xs ++ ys) ≡ count c xs + count c ys
count-append c [] ys = omega arith
count-append c (x ∷ xs) ys = omega (arith, count-append c xs ys)

module _ {ℓ} {A : Type ℓ} where
  abbrev pub drop : ℕ → List A → List A
  drop zero xs = xs
  drop (suc n) [] = []
  drop (suc n) (x ∷ xs) = drop n xs

  abbrev pub take : ℕ → List A → List A
  take zero xs = []
  take (suc n) [] = []
  take (suc n) (x ∷ xs) = x ∷ take n xs

  pub take-length : (xs : List A) → take (length xs) xs ≡ xs
  take-length [] = refl
  take-length (x ∷ xs) = ap (λ l. x ∷ l) (take-length xs)

  pub take-drop : (n : ℕ) (xs : List A) → take n xs ++ drop n xs ≡ xs
  take-drop zero xs = refl
  take-drop (suc n) [] = refl
  take-drop (suc n) (x ∷ xs) = ap (λ l. x ∷ l) (take-drop n xs)
