-- ===== src/Transfer/Mirror/Transfers/Progress.antt =====
-- internal/transfer/mirror.go, `runTransfers`: how far a run has come.
use sfync.Base.{ℕ, ◌+◌, ◌*◌, ◌≡◌, refl, Option, none, some, List, []}
use sfync.Base.{◌∷◌, ◌++◌, length, arith}
use sfync.Transfer.Types.{MirrorEntry}
use sfync.Transfer.Client.{Error}
use sfync.Transfer.Mirror.Transfers.{
  TransferJob, Phase, attempting, failed, lost, again, reports, Guarded, Holder, Transfers,
}

-- A sum over a list.
abbrev pub sum_of : {A : Type 0} → (A → ℕ) → List A → ℕ
sum_of f [] = 0
sum_of f (x ∷ l) = f x + sum_of f l

pub sum_of-append :
    {A : Type 0} (f : A → ℕ) (xs ys : List A) → sum_of f (xs ++ ys) ≡ sum_of f xs + sum_of f ys
sum_of-append f [] ys = omega arith
sum_of-append f (x ∷ xs) ys = omega (arith, sum_of-append f xs ys)

pub sum_of-one : {A : Type 0} (l : List A) → sum_of (λ _. 1) l ≡ length l
sum_of-one [] = refl
sum_of-one (x ∷ l) = omega (arith, sum_of-one l)

-- An outcome that was reported, and what all of them make of a result; the last is the first here.
abbrev pub Report : Type 0
Report = MirrorEntry × Option Error

abbrev pub reported : {R : Type 0} → (MirrorEntry → Option Error → R → R) → List Report → R → R
reported on_result [] r = r
reported on_result (o ∷ l) r = on_result o.0 o.1 (reported on_result l r)

abbrev pub subject : {W : Type 0} → Phase W → MirrorEntry
subject (attempting job) = job.action
subject (failed job gen e) = job.action
subject (lost job gen e) = job.action
subject (again job) = job.action
subject (reports a e) = a

-- How many moves are left.
abbrev pub left : {W : Type 0} → Phase W → ℕ
left (attempting job) = 6
left (failed job gen e) = 5
left (lost job gen e) = 4
left (again job) = 3
left (reports a e) = 2

abbrev pub held : {R : Type 0} → (MirrorEntry → ℕ) → Option (Holder R) → ℕ
held f none = 0
held f (some h) = f h.action

abbrev pub Fresh : {R : Type 0} → Option (Holder R) → R → Type 0
Fresh none r = Unit
Fresh (some h) r = h.seen ≡ r

abbrev pub state :
    {W R : Type 0}
    → List (TransferJob W)
    → ℕ
    → List (Phase W)
    → Option (Holder R)
    → Guarded W
    → R
    → Transfers W R
state jobs free busy mu g r = record {
  jobs = jobs;
  free = free;
  busy = busy;
  result_mu = mu;
  guarded = g;
  result = r;
}

abbrev pub todo : {W R : Type 0} → Transfers W R → ℕ
todo t = 7 * length t.jobs + sum_of left t.busy + held (λ _. 1) t.result_mu
