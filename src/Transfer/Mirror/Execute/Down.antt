-- ===== src/Transfer/Mirror/Execute/Down.antt =====
-- internal/transfer/mirror.go, `executeDown`: every action is counted once.
use sfync.Base.{ℕ, ◌+◌, ◌≡◌, refl, ◌∙◌, Text, codes, Option, none, some, List, [], ◌∷◌}
use sfync.Base.{if◌then◌else◌, length, arith}
use sfync.Config.{Profile}
use sfync.Transfer.Types.{MirrorEntry, MirrorAction}
use sfync.Transfer.Types.{action_upload, action_download, action_delete, action_delete_dir}
use sfync.Transfer.Types.{action_mkdir, action_skip, action_conflict}
use sfync.Transfer.Client.{Error, error_text}
use sfync.Transfer.Remote.{RemoteClient, Disk}
use sfync.Transfer.Mirror.Execute.{
  MirrorResult, conflict_warning, about, note_made, note_gone, on_local, on_download, execute_local,
  local_loop, downloads, execute_down, is_download, fetch,
}
use sfync.Transfer.Mirror.Execute.Results.{
  files, others, as_download, as_other, total, warn-others, on_download-files, on_download-others,
  run_transfers-counts, run_transfers-keeps,
}

download-weight : (k : MirrorAction) → as_download k ≡ (if is_download k then 1 else 0)
download-weight action_upload = refl
download-weight action_download = refl
download-weight action_delete = refl
download-weight action_delete_dir = refl
download-weight action_mkdir = refl
download-weight action_skip = refl
download-weight action_conflict = refl

module _ {W : Type 0} (c : RemoteClient W) (profile : Profile) where
  note_made-others :
      (a : MirrorEntry) (answer : Option Error × W) (r : MirrorResult)
      → others (note_made c profile a answer r).0 ≡ others r + 1
  note_made-others a (none, w) r = omega arith
  note_made-others a (some e, w) r = warn-others (about (codes "mkdir ") a (error_text e)) r

  note_made-files :
      (a : MirrorEntry) (answer : Option Error × W) (r : MirrorResult)
      → files (note_made c profile a answer r).0 ≡ files r
  note_made-files a (none, w) r = refl
  note_made-files a (some e, w) r = refl

  note_gone-others :
      (op : Text) (a : MirrorEntry) (answer : Option Error × W) (r : MirrorResult)
      → others (note_gone c profile op a answer r).0 ≡ others r + 1
  note_gone-others op a (none, w) r = omega arith
  note_gone-others op a (some e, w) r = warn-others (about op a (error_text e)) r

  note_gone-files :
      (op : Text) (a : MirrorEntry) (answer : Option Error × W) (r : MirrorResult)
      → files (note_gone c profile op a answer r).0 ≡ files r
  note_gone-files op a (none, w) r = refl
  note_gone-files op a (some e, w) r = refl

  module _ (disk : Disk W) where
    execute_local-others :
        (a : MirrorEntry) (k : MirrorAction) (r : MirrorResult) (w : W)
        → others (execute_local c profile disk a k r w).0 ≡ others r + as_other k
    unfolding execute_local
    execute_local-others a action_mkdir r w =
        note_made-others a (disk.make_dirs (on_local c profile a) w) r
    execute_local-others a action_delete r w =
        note_gone-others (codes "delete ") a (disk.remove_path (on_local c profile a) w) r
    execute_local-others a action_delete_dir r w =
        note_gone-others (codes "rmdir ") a (disk.remove_path (on_local c profile a) w) r
    execute_local-others a action_conflict r w = warn-others (conflict_warning a) r
    execute_local-others a action_download r w = omega arith
    execute_local-others a action_upload r w = omega arith
    execute_local-others a action_skip r w = omega arith

    execute_local-files :
        (a : MirrorEntry) (k : MirrorAction) (r : MirrorResult) (w : W)
        → files (execute_local c profile disk a k r w).0 ≡ files r
    unfolding execute_local
    execute_local-files a action_mkdir r w =
        note_made-files a (disk.make_dirs (on_local c profile a) w) r
    execute_local-files a action_delete r w =
        note_gone-files (codes "delete ") a (disk.remove_path (on_local c profile a) w) r
    execute_local-files a action_delete_dir r w =
        note_gone-files (codes "rmdir ") a (disk.remove_path (on_local c profile a) w) r
    execute_local-files a action_conflict r w = refl
    execute_local-files a action_download r w = refl
    execute_local-files a action_upload r w = refl
    execute_local-files a action_skip r w = refl

    local_loop-others :
        (l : List MirrorEntry) (r : MirrorResult) (w : W)
        → others (local_loop c profile disk l r w).0 ≡ others r + total as_other l
    unfolding local_loop
    local_loop-others [] r w = omega arith
    local_loop-others (a ∷ l) r w =
        let (r', w') = execute_local c profile disk a a.action r w in
        let now = execute_local-others a a.action r w in
        let rest = local_loop-others l r' w' in omega arith

    local_loop-files :
        (l : List MirrorEntry) (r : MirrorResult) (w : W)
        → files (local_loop c profile disk l r w).0 ≡ files r
    unfolding local_loop
    local_loop-files [] r w = refl
    local_loop-files (a ∷ l) r w =
        let (r', w') = execute_local c profile disk a a.action r w in
        local_loop-files l r' w' ∙ execute_local-files a a.action r w

    length-downloads : (l : List MirrorEntry) → length (downloads l) ≡ total as_download l
    unfolding downloads
    length-downloads [] = refl
    length-downloads (a ∷ l) =
        let rest = length-downloads l in let now = download-weight a.action in ground arith

    -- Mirroring down, each download adds one to the files downloaded or to the errors, and each
    -- directory to make, deletion and conflict one to those done or to the warnings; nothing else
    -- does.
    pub execute_down_accounts :
        (sched : W → ℕ → ℕ) (actions : List MirrorEntry) (r : MirrorResult) (w : W)
        → (files (execute_down c profile disk sched actions r w).0
            ≡ files r + total as_download actions)
          × (others (execute_down c profile disk sched actions r w).0
              ≡ others r + total as_other actions)
    unfolding execute_down
    execute_down_accounts sched actions r w =
        let (r1, w1) = local_loop c profile disk actions r w in
        let todo = downloads actions in
        let f0 = local_loop-files actions r w in
        let f1 =
          run_transfers-counts c sched on_download files on_download-files todo (fetch c profile) r1
            w1 in
        let n = length-downloads actions in
        let o0 = local_loop-others actions r w in
        let o1 =
          run_transfers-keeps c sched on_download others on_download-others todo (fetch c profile)
            r1 w1 in
        (omega arith, omega arith)
