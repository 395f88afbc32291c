-- ===== src/Transfer/Mirror/Execute/Results.antt =====
-- internal/transfer/mirror.go: what the phases of `executeUp` and `executeDown` add to a result.
use mathlib.Core.List.{flatten}
use sfync.Base.{ℕ, ◌+◌, ◌≡◌, refl, ap, ◌∙◌, Text, Option, none, some, List, [], ◌∷◌}
use sfync.Base.{length, length-append, arith}
use sfync.Transfer.Types.{MirrorEntry, MirrorAction}
use sfync.Transfer.Types.{action_upload, action_download, action_delete, action_delete_dir}
use sfync.Transfer.Types.{action_mkdir, action_conflict}
use sfync.Transfer.Client.{Error}
use sfync.Transfer.Remote.{RemoteClient}
use sfync.Transfer.Mirror.Order.{depth_levels}
use sfync.Transfer.Mirror.Order.Levels.{depth_levels_lem}
use sfync.Transfer.Mirror.Transfers.{jobs_for, length-jobs_for, run_transfers}
use sfync.Transfer.Mirror.Transfers.Progress.{sum_of, sum_of-one, Report, reported}
use sfync.Transfer.Mirror.Transfers.Workers.{run_transfers-Reports}
use sfync.Transfer.Mirror.Execute.{
  MirrorResult, warn_conflicts, warn, fail, conflict_warning, on_mkdir, on_upload, on_delete,
  on_delete_dir, on_download, run_levels,
}

-- The files that were transferred, whose transfer failed, or that were skipped.
abbrev pub files : MirrorResult → ℕ
files r = r.uploaded + r.downloaded + length r.errors + r.skipped

-- All other actions, done or warned about.
abbrev pub others : MirrorResult → ℕ
others r = r.created + r.deleted + length r.warnings

abbrev pub as_upload : MirrorAction → ℕ
as_upload action_upload = 1
as_upload _ = 0

abbrev pub as_download : MirrorAction → ℕ
as_download action_download = 1
as_download _ = 0

abbrev pub as_other : MirrorAction → ℕ
as_other action_mkdir = 1
as_other action_delete = 1
as_other action_delete_dir = 1
as_other action_conflict = 1
as_other _ = 0

abbrev pub total : (MirrorAction → ℕ) → List MirrorEntry → ℕ
total weight [] = 0
total weight (a ∷ actions) = weight a.action + total weight actions

pub warn-others : (text : Text) (r : MirrorResult) → others (warn text r) ≡ others r + 1
warn-others text r = omega (arith, length-append r.warnings (text ∷ []))

pub fail-files : (text : Text) (r : MirrorResult) → files (fail text r) ≡ files r + 1
fail-files text r = omega (arith, length-append r.errors (text ∷ []))

pub on_mkdir-others :
    (a : MirrorEntry) (e : Option Error) (r : MirrorResult) → others (on_mkdir a e r) ≡ others r + 1
unfolding on_mkdir
on_mkdir-others a none r = omega arith
on_mkdir-others a (some e) r = warn-others _ r

pub on_mkdir-files :
    (a : MirrorEntry) (e : Option Error) (r : MirrorResult) → files (on_mkdir a e r) ≡ files r
unfolding on_mkdir
on_mkdir-files a none r = refl
on_mkdir-files a (some e) r = refl

pub on_upload-files :
    (a : MirrorEntry) (e : Option Error) (r : MirrorResult) → files (on_upload a e r) ≡ files r + 1
unfolding on_upload
on_upload-files a none r = omega arith
on_upload-files a (some e) r = fail-files _ r

pub on_upload-others :
    (a : MirrorEntry) (e : Option Error) (r : MirrorResult) → others (on_upload a e r) ≡ others r
unfolding on_upload
on_upload-others a none r = refl
on_upload-others a (some e) r = refl

pub on_delete-others :
    (a : MirrorEntry) (e : Option Error) (r : MirrorResult)
    → others (on_delete a e r) ≡ others r + 1
unfolding on_delete
on_delete-others a none r = omega arith
on_delete-others a (some e) r = warn-others _ r

pub on_delete-files :
    (a : MirrorEntry) (e : Option Error) (r : MirrorResult) → files (on_delete a e r) ≡ files r
unfolding on_delete
on_delete-files a none r = refl
on_delete-files a (some e) r = refl

pub on_delete_dir-others :
    (a : MirrorEntry) (e : Option Error) (r : MirrorResult)
    → others (on_delete_dir a e r) ≡ others r + 1
unfolding on_delete_dir
on_delete_dir-others a none r = omega arith
on_delete_dir-others a (some e) r = warn-others _ r

pub on_delete_dir-files :
    (a : MirrorEntry) (e : Option Error) (r : MirrorResult) → files (on_delete_dir a e r) ≡ files r
unfolding on_delete_dir
on_delete_dir-files a none r = refl
on_delete_dir-files a (some e) r = refl

pub on_download-files :
    (a : MirrorEntry) (e : Option Error) (r : MirrorResult)
    → files (on_download a e r) ≡ files r + 1
unfolding on_download
on_download-files a none r = omega arith
on_download-files a (some e) r = fail-files _ r

pub on_download-others :
    (a : MirrorEntry) (e : Option Error) (r : MirrorResult) → others (on_download a e r) ≡ others r
unfolding on_download
on_download-others a none r = refl
on_download-others a (some e) r = refl

pub warn_conflicts-others :
    (l : List MirrorEntry) (r : MirrorResult) → others (warn_conflicts l r) ≡ others r + length l
unfolding warn_conflicts
warn_conflicts-others [] r = omega arith
warn_conflicts-others (a ∷ l) r =
    let rest = warn_conflicts-others l (warn (conflict_warning a) r) in
    let more = warn-others (conflict_warning a) r in omega arith

pub warn_conflicts-files :
    (l : List MirrorEntry) (r : MirrorResult) → files (warn_conflicts l r) ≡ files r
unfolding warn_conflicts
warn_conflicts-files [] r = refl
warn_conflicts-files (a ∷ l) r = warn_conflicts-files l (warn (conflict_warning a) r)

module _ {W : Type 0} (c : RemoteClient W) (sched : W → ℕ → ℕ) where
  -- A run of transfers, seen through what each result adds one to, or leaves as it is.
  module _ (on_result : MirrorEntry → Option Error → MirrorResult → MirrorResult)
      (f : MirrorResult → ℕ) where
    -- What each report adds one to has one more for each report.
    reported-counts :
        ((a : MirrorEntry) (e : Option Error) (r : MirrorResult) → f (on_result a e r) ≡ f r + 1)
        → (l : List Report) (r : MirrorResult)
        → f (reported on_result l r) ≡ f r + sum_of (λ _. 1) l
    reported-counts h [] r = omega arith
    reported-counts h (o ∷ l) r =
        omega (arith, reported-counts h l r, h o.0 o.1 (reported on_result l r))

    reported-keeps :
        ((a : MirrorEntry) (e : Option Error) (r : MirrorResult) → f (on_result a e r) ≡ f r)
        → (l : List Report) (r : MirrorResult) → f (reported on_result l r) ≡ f r
    reported-keeps h [] r = refl
    reported-keeps h (o ∷ l) r = h o.0 o.1 (reported on_result l r) ∙ reported-keeps h l r

    pub run_transfers-counts :
        ((a : MirrorEntry) (e : Option Error) (r : MirrorResult) → f (on_result a e r) ≡ f r + 1)
        → (l : List MirrorEntry) (fn : MirrorEntry → W → Option Error × W) (r : MirrorResult)
          (w : W)
        → f (run_transfers c on_result sched (jobs_for l fn) r w).0 ≡ f r + length l
    run_transfers-counts h l fn r w =
        let (reports, made, sums) = run_transfers-Reports c on_result sched (jobs_for l fn) r w in
        omega (
          arith,
          ap f made,
          reported-counts h reports r,
          sums (λ _. 1),
          sum_of-one (jobs_for l fn),
          length-jobs_for l fn,
        )

    pub run_transfers-keeps :
        ((a : MirrorEntry) (e : Option Error) (r : MirrorResult) → f (on_result a e r) ≡ f r)
        → (l : List MirrorEntry) (fn : MirrorEntry → W → Option Error × W) (r : MirrorResult)
          (w : W)
        → f (run_transfers c on_result sched (jobs_for l fn) r w).0 ≡ f r
    run_transfers-keeps h l fn r w =
        let (reports, made, sums) = run_transfers-Reports c on_result sched (jobs_for l fn) r w in
        ap f made ∙ reported-keeps h reports r

    pub run_levels-counts :
        ((a : MirrorEntry) (e : Option Error) (r : MirrorResult) → f (on_result a e r) ≡ f r + 1)
        → (fn : MirrorEntry → W → Option Error × W)
        → (levels : List (List MirrorEntry)) (r : MirrorResult) (w : W)
        → f (run_levels c sched fn on_result levels r w).0 ≡ f r + length (flatten levels)
    unfolding run_levels flatten
    run_levels-counts h fn [] r w = omega arith
    run_levels-counts h fn (level ∷ levels) r w =
        let (r', w') = run_transfers c on_result sched (jobs_for level fn) r w in
        let now = run_transfers-counts h level fn r w in
        let rest = run_levels-counts h fn levels r' w' in
        let both = length-append level (flatten levels) in omega arith

    pub run_levels-keeps :
        ((a : MirrorEntry) (e : Option Error) (r : MirrorResult) → f (on_result a e r) ≡ f r)
        → (fn : MirrorEntry → W → Option Error × W)
        → (levels : List (List MirrorEntry)) (r : MirrorResult) (w : W)
        → f (run_levels c sched fn on_result levels r w).0 ≡ f r
    unfolding run_levels
    run_levels-keeps h fn [] r w = refl
    run_levels-keeps h fn (level ∷ levels) r w =
        let (r', w') = run_transfers c on_result sched (jobs_for level fn) r w in
        run_levels-keeps h fn levels r' w' ∙ run_transfers-keeps h level fn r w

    -- Level by level, each action of the list is counted.
    pub levels-counts :
        ((a : MirrorEntry) (e : Option Error) (r : MirrorResult) → f (on_result a e r) ≡ f r + 1)
        → (fn : MirrorEntry → W → Option Error × W) (l : List MirrorEntry) (r : MirrorResult)
          (w : W)
        → f (run_levels c sched fn on_result (depth_levels l) r w).0 ≡ f r + length l
    levels-counts h fn l r w =
        run_levels-counts h fn (depth_levels l) r w
        ∙ ap (λ m. f r + length m) (depth_levels_lem l).0
