-- ===== src/Transfer/Mirror/Execute/Up.antt =====
-- internal/transfer/mirror.go, `executeUp`: every action is counted once.
use sfync.Base.{ℕ, ◌+◌, ◌≡◌, refl, List, [], ◌∷◌}
use sfync.Base.{length, arith}
use sfync.Config.{Profile}
use sfync.Transfer.Types.{MirrorEntry, MirrorAction}
use sfync.Transfer.Types.{action_upload, action_download, action_delete, action_delete_dir}
use sfync.Transfer.Types.{action_mkdir, action_skip, action_conflict}
use sfync.Transfer.Remote.{RemoteClient}
use sfync.Transfer.Mirror.Order.{depth_levels}
use sfync.Transfer.Mirror.Transfers.{jobs_for, run_transfers}
use sfync.Transfer.Mirror.Execute.{
  MirrorResult, UpWork, sort_out, up_work, warn_conflicts, on_mkdir, on_upload, on_delete,
  on_delete_dir, run_levels, execute_up, make_remote, send, remove_remote, remove_remote_dir,
}
use sfync.Transfer.Mirror.Execute.Results.{
  files, others, as_upload, as_other, total, on_mkdir-others, on_mkdir-files, on_upload-files,
  on_upload-others, on_delete-others, on_delete-files, on_delete_dir-others, on_delete_dir-files,
  warn_conflicts-others, warn_conflicts-files, run_transfers-counts, run_transfers-keeps,
  run_levels-keeps, levels-counts,
}

-- The lengths of the slices.
abbrev others_of : UpWork → ℕ
others_of b =
    length b.up_mkdirs + length b.up_deletes + length b.up_delete_dirs + length b.conflicts

sort_out-others :
    (a : MirrorEntry) (k : MirrorAction) (b : UpWork)
    → others_of (sort_out a k b) ≡ as_other k + others_of b
unfolding sort_out
sort_out-others a action_mkdir b = omega arith
sort_out-others a action_upload b = omega arith
sort_out-others a action_download b = omega arith
sort_out-others a action_delete b = omega arith
sort_out-others a action_delete_dir b = omega arith
sort_out-others a action_conflict b = omega arith
sort_out-others a action_skip b = omega arith

sort_out-uploads :
    (a : MirrorEntry) (k : MirrorAction) (b : UpWork)
    → length (sort_out a k b).uploads ≡ as_upload k + length b.uploads
unfolding sort_out
sort_out-uploads a action_mkdir b = omega arith
sort_out-uploads a action_upload b = omega arith
sort_out-uploads a action_download b = omega arith
sort_out-uploads a action_delete b = omega arith
sort_out-uploads a action_delete_dir b = omega arith
sort_out-uploads a action_conflict b = omega arith
sort_out-uploads a action_skip b = omega arith

up_work-others : (l : List MirrorEntry) → others_of (up_work l) ≡ total as_other l
unfolding up_work
up_work-others [] = refl
up_work-others (a ∷ l) =
    let rest = up_work-others l in let now = sort_out-others a a.action (up_work l) in omega arith

up_work-uploads : (l : List MirrorEntry) → length (up_work l).uploads ≡ total as_upload l
unfolding up_work
up_work-uploads [] = refl
up_work-uploads (a ∷ l) =
    let rest = up_work-uploads l in let now = sort_out-uploads a a.action (up_work l) in omega arith

module _ {W : Type 0} (c : RemoteClient W) where
  module _ (profile : Profile) where
    -- Mirroring up, each upload adds one to the files uploaded or to the errors, and each directory
    -- to make, deletion and conflict one to those done or to the warnings; nothing else does.
    pub execute_up_accounts :
        (sched : W → ℕ → ℕ) (actions : List MirrorEntry) (r : MirrorResult) (w : W)
        → (files (execute_up c profile sched actions r w).0 ≡ files r + total as_upload actions)
          × (others (execute_up c profile sched actions r w).0 ≡ others r + total as_other actions)
    unfolding execute_up
    execute_up_accounts sched actions r w =
        let b = up_work actions in
        let r0 = warn_conflicts b.conflicts r in
        let (r1, w1) =
          run_levels c sched (make_remote c profile) on_mkdir (depth_levels b.up_mkdirs) r0 w in
        let (r2, w2) =
          run_transfers c on_upload sched (jobs_for b.uploads (send c profile)) r1 w1 in
        let (r3, w3) =
          run_transfers c on_delete sched (jobs_for b.up_deletes (remove_remote c profile)) r2 w2 in
        let f0 = warn_conflicts-files b.conflicts r in
        let f1 =
          run_levels-keeps c sched on_mkdir files on_mkdir-files (make_remote c profile)
            (depth_levels b.up_mkdirs) r0 w in
        let f2 =
          run_transfers-counts c sched on_upload files on_upload-files b.uploads (send c profile) r1
            w1 in
        let f3 =
          run_transfers-keeps c sched on_delete files on_delete-files b.up_deletes
            (remove_remote c profile) r2 w2 in
        let f4 =
          run_levels-keeps c sched on_delete_dir files on_delete_dir-files
            (remove_remote_dir c profile) (depth_levels b.up_delete_dirs) r3 w3 in
        let o0 = warn_conflicts-others b.conflicts r in
        let o1 =
          levels-counts c sched on_mkdir others on_mkdir-others (make_remote c profile) b.up_mkdirs
            r0 w in
        let o2 =
          run_transfers-keeps c sched on_upload others on_upload-others b.uploads (send c profile)
            r1 w1 in
        let o3 =
          run_transfers-counts c sched on_delete others on_delete-others b.up_deletes
            (remove_remote c profile) r2 w2 in
        let o4 =
          levels-counts c sched on_delete_dir others on_delete_dir-others
            (remove_remote_dir c profile) b.up_delete_dirs r3 w3 in
        (
          omega (arith, up_work-uploads actions, f0, f1, f2, f3, f4),
          omega (arith, up_work-others actions, o0, o1, o2, o3, o4),
        )
