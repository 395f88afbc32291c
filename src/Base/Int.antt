-- ===== src/Base/Int.antt =====
-- Go's int where it may be negative, as a sign and a magnitude. It models no code of its own.
use Prim.Native.Nat.{ℕ, suc, ◌+◌}
use mathlib.Core.Bool.{Bool}
use mathlib.Core.Path.{ap}
use mathlib.Core.Logic.{dite}
use native.Mathlib.Decide.{ℕ_discrete}
use sfync.Base.Compare.{ltb, Eq}

-- `negsuc n` is -(n + 1).
pub data ℤ : Type 0 where
  pos : ℕ → ℤ
  negsuc : ℕ → ℤ

abbrev pub pos_part : ℤ → ℕ
pos_part (pos n) = n
pos_part (negsuc n) = 0

abbrev pub neg_part : ℤ → ℕ
neg_part (pos n) = 0
neg_part (negsuc n) = suc n

abbrev pub ltb_ℤ : ℤ → ℤ → Bool
ltb_ℤ a b = ltb (pos_part a + neg_part b) (pos_part b + neg_part a)

abbrev pub is_zero : ℤ → Bool
is_zero (pos n) = ltb n 1
is_zero (negsuc n) = ltb 1 0

ℤ_dec : Discrete ℤ
unfolding ℕ_discrete
ℤ_dec (pos m) (pos n) = dite (ℕ_discrete m n) (λ p. yes (ap pos p)) (λ n. no (λ e. n (cc)))
ℤ_dec (pos m) (negsuc n) = no (λ e. cc)
ℤ_dec (negsuc m) (pos n) = no (λ e. cc)
ℤ_dec (negsuc m) (negsuc n) = dite (ℕ_discrete m n) (λ p. yes (ap negsuc p)) (λ n. no (λ e. n (cc)))

instance unfoldable pub ℤ_eq : Eq ℤ
unfolding ℤ_dec
ℤ_eq = record { dec = ℤ_dec }
