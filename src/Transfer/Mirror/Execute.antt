-- ===== src/Transfer/Mirror/Execute.antt =====
-- internal/transfer/mirror.go: `executeUp`, `executeDown` and `doUpload`. What they print is left
-- out.
pub mod Results
pub mod Up
pub mod Down
use sfync.Base.{
  ℕ, ◌+◌, ◌*◌, Text, codes, Option, none, some, List, [], ◌∷◌, ◌++◌, Bool, true, false,
}
use sfync.Base.{if◌then◌else◌, leb, not}
use sfync.Base.Paths.{join}
use sfync.Config.{Profile}
use sfync.Transfer.Types.{FileInfo, RemoteFileInfo, MirrorEntry, MirrorAction}
use sfync.Transfer.Types.{action_upload, action_download, action_delete, action_delete_dir}
use sfync.Transfer.Types.{action_mkdir, action_skip, action_conflict}
use sfync.Transfer.Client.{Error, error_text, translate_error, is_not_exist, remote_path}
use sfync.Transfer.Remote.{RemoteClient, Disk}
use sfync.Transfer.Mirror.Order.{depth_levels}
use sfync.Transfer.Mirror.Transfers.{TransferJob, jobs_for, run_transfers}

pub record MirrorResult : Type 0 where
  pub uploaded : ℕ
  pub downloaded : ℕ
  pub deleted : ℕ
  pub created : ℕ
  pub skipped : ℕ
  pub warnings : List Text
  pub errors : List Text
  pub success : Bool
  pub actions : List MirrorEntry

-- `result.Warnings = append(result.Warnings, …)`
abbrev pub warn : Text → MirrorResult → MirrorResult
warn text r = record r { warnings = r.warnings ++ text ∷ [] }

abbrev pub fail : Text → MirrorResult → MirrorResult
fail text r = record r { errors = r.errors ++ text ∷ [] }

-- The text "op path: message".
abbrev pub about : Text → MirrorEntry → Text → Text
about op a msg = op ++ (a.rel_path ++ (codes ": " ++ msg))

-- The character — in UTF-8.
abbrev em_dash : Text
em_dash = 0xe2 ∷ 0x80 ∷ 0x94 ∷ []

abbrev pub conflict_warning : MirrorEntry → Text
conflict_warning a =
    codes "skipped "
    ++ (a.rel_path
        ++ (codes ": file on one side, directory on the other "
            ++ (em_dash ++ codes " resolve manually")))

-- The slices of `executeUp`.
pub record UpWork : Type 0 where
  pub up_mkdirs : List MirrorEntry
  pub uploads : List MirrorEntry
  pub up_deletes : List MirrorEntry
  pub up_delete_dirs : List MirrorEntry
  pub conflicts : List MirrorEntry

-- The switch of `executeUp`.
unfoldable pub sort_out : MirrorEntry → MirrorAction → UpWork → UpWork
sort_out a action_mkdir b = record b { up_mkdirs = a ∷ b.up_mkdirs }
sort_out a action_upload b = record b { uploads = a ∷ b.uploads }
sort_out a action_delete b = record b { up_deletes = a ∷ b.up_deletes }
sort_out a action_delete_dir b = record b { up_delete_dirs = a ∷ b.up_delete_dirs }
sort_out a action_conflict b = record b { conflicts = a ∷ b.conflicts }
sort_out a action_download b = b
sort_out a action_skip b = b

-- Its loop, less the warnings about conflicts, which `warn_conflicts` appends in the same order.
unfoldable pub up_work : List MirrorEntry → UpWork
unfolding sort_out
up_work [] = record {
  up_mkdirs = [];
  uploads = [];
  up_deletes = [];
  up_delete_dirs = [];
  conflicts = [];
}
up_work (a ∷ actions) = sort_out a a.action (up_work actions)

unfoldable pub warn_conflicts : List MirrorEntry → MirrorResult → MirrorResult
warn_conflicts [] r = r
warn_conflicts (a ∷ entries) r = warn_conflicts entries (warn (conflict_warning a) r)

-- What the phases do with the outcome of a job.
unfoldable pub on_mkdir : MirrorEntry → Option Error → MirrorResult → MirrorResult
on_mkdir a none r = record r { created = r.created + 1 }
on_mkdir a (some e) r = warn (about (codes "mkdir ") a (translate_error (some e))) r

unfoldable pub on_upload : MirrorEntry → Option Error → MirrorResult → MirrorResult
on_upload a none r = record r { uploaded = r.uploaded + 1 }
on_upload a (some e) r = fail (about (codes "upload ") a (translate_error (some e))) r

unfoldable pub on_delete : MirrorEntry → Option Error → MirrorResult → MirrorResult
on_delete a none r = record r { deleted = r.deleted + 1 }
on_delete a (some e) r = warn (about (codes "delete ") a (translate_error (some e))) r

unfoldable pub on_delete_dir : MirrorEntry → Option Error → MirrorResult → MirrorResult
on_delete_dir a none r = record r { deleted = r.deleted + 1 }
on_delete_dir a (some e) r = warn (about (codes "rmdir ") a (translate_error (some e))) r

unfoldable pub on_download : MirrorEntry → Option Error → MirrorResult → MirrorResult
on_download a none r = record r { downloaded = r.downloaded + 1 }
on_download a (some e) r = fail (about (codes "download ") a (translate_error (some e))) r

-- `ResumeThreshold`
abbrev pub resume_threshold : ℕ
resume_threshold = 10 * 1024 * 1024

unfoldable pub is_large : Option FileInfo → Bool
is_large none = false
is_large (some info) = leb resume_threshold info.size

abbrev pub is_download : MirrorAction → Bool
is_download action_download = true
is_download _ = false

-- What `executeDown` collects.
unfoldable pub downloads : List MirrorEntry → List MirrorEntry
downloads [] = []
downloads (a ∷ actions) =
    let rest = downloads actions in if is_download a.action then a ∷ rest else rest

module _ {W : Type 0} (c : RemoteClient W) where
  unfoldable pub do_upload : Text → Text → MirrorEntry → W → Option Error × W
  unfolding is_large
  do_upload local_path remote a w =
      if is_large a.local_info
      then c.upload_resume local_path remote w
      else c.upload local_path remote w

  -- One round trip, and `MkdirAll` where it fails.
  abbrev pub or_mkdir_all : Text → Option Error × W → Option Error × W
  or_mkdir_all p (none, w) = (none, w)
  or_mkdir_all p (some e, w) = c.mkdir_all p w

  -- A file that is gone already counts as deleted.
  abbrev pub unless_gone : Option Error × W → Option Error × W
  unless_gone (e, w) = (if is_not_exist e then none else e, w)

  abbrev pub download_with :
      Option (Text → Text → ℕ → ℕ → W → Option Error × W)
      → Option RemoteFileInfo
      → Text
      → Text
      → W
      → Option Error × W
  download_with (some known) (some info) remote local_path =
      known remote local_path info.size info.mod_time
  download_with (some known) none remote local_path = c.download remote local_path
  download_with none info remote local_path = c.download remote local_path

  -- `for _, level := range …`, with a run of transfers for each level.
  unfoldable pub run_levels :
      (W → ℕ → ℕ)
      → (MirrorEntry → W → Option Error × W)
      → (MirrorEntry → Option Error → MirrorResult → MirrorResult)
      → List (List MirrorEntry)
      → MirrorResult
      → W
      → MirrorResult × W
  unfolding run_transfers jobs_for
  run_levels sched fn on_result [] r w = (r, w)
  run_levels sched fn on_result (level ∷ levels) r w =
      let (r', w') = run_transfers c on_result sched (jobs_for level fn) r w in
      run_levels sched fn on_result levels r' w'

  module _ (profile : Profile) where
    abbrev pub on_remote : MirrorEntry → Text
    on_remote a = remote_path (profile.remote_path ∷ a.rel_path ∷ [])

    abbrev pub on_local : MirrorEntry → Text
    on_local a = join (profile.context ∷ a.rel_path ∷ [])

    abbrev pub make_remote : MirrorEntry → W → Option Error × W
    make_remote a w = or_mkdir_all (on_remote a) (c.mkdir (on_remote a) w)

    abbrev pub send : MirrorEntry → W → Option Error × W
    send a = do_upload (on_local a) (on_remote a) a

    abbrev pub remove_remote : MirrorEntry → W → Option Error × W
    remove_remote a w = unless_gone (c.remove (on_remote a) w)

    abbrev pub remove_remote_dir : MirrorEntry → W → Option Error × W
    remove_remote_dir a = c.remove_dir (on_remote a)

    abbrev pub fetch : MirrorEntry → W → Option Error × W
    fetch a = download_with c.download_known a.remote_info (on_remote a) (on_local a)

    -- The choices of the scheduler are an argument, here and below.
    unfoldable pub execute_up : (W → ℕ → ℕ) → List MirrorEntry → MirrorResult → W → MirrorResult × W
    unfolding up_work warn_conflicts run_levels do_upload run_transfers jobs_for depth_levels
        on_mkdir on_upload on_delete on_delete_dir remote_path is_not_exist
    execute_up sched actions r0 w0 =
        let b = up_work actions in
        let (r1, w1) =
          run_levels sched make_remote on_mkdir (depth_levels b.up_mkdirs)
            (warn_conflicts b.conflicts r0) w0 in
        let (r2, w2) = run_transfers c on_upload sched (jobs_for b.uploads send) r1 w1 in
        let (r3, w3) =
          run_transfers c on_delete sched (jobs_for b.up_deletes remove_remote) r2 w2 in
        run_levels sched remove_remote_dir on_delete_dir (depth_levels b.up_delete_dirs) r3 w3

    -- What the loop of `executeDown` does with the answer of the disk.
    abbrev pub note_made : MirrorEntry → Option Error × W → MirrorResult → MirrorResult × W
    note_made a (none, w) r = (record r { created = r.created + 1 }, w)
    note_made a (some e, w) r = (warn (about (codes "mkdir ") a (error_text e)) r, w)

    abbrev pub note_gone : Text → MirrorEntry → Option Error × W → MirrorResult → MirrorResult × W
    note_gone op a (none, w) r = (record r { deleted = r.deleted + 1 }, w)
    note_gone op a (some e, w) r = (warn (about op a (error_text e)) r, w)

    module _ (disk : Disk W) where
      -- The switch of `executeDown`.
      unfoldable pub execute_local :
          MirrorEntry → MirrorAction → MirrorResult → W → MirrorResult × W
      unfolding error_text
      execute_local a action_mkdir r w = note_made a (disk.make_dirs (on_local a) w) r
      execute_local a action_delete r w =
          note_gone (codes "delete ") a (disk.remove_path (on_local a) w) r
      execute_local a action_delete_dir r w =
          note_gone (codes "rmdir ") a (disk.remove_path (on_local a) w) r
      execute_local a action_conflict r w = (warn (conflict_warning a) r, w)
      execute_local a action_download r w = (r, w)
      execute_local a action_upload r w = (r, w)
      execute_local a action_skip r w = (r, w)

      -- Its loop, less the downloads that it collects.
      unfoldable pub local_loop : List MirrorEntry → MirrorResult → W → MirrorResult × W
      unfolding execute_local
      local_loop [] r w = (r, w)
      local_loop (a ∷ actions) r w =
          let (r', w') = execute_local a a.action r w in local_loop actions r' w'

      unfoldable pub execute_down :
          (W → ℕ → ℕ) → List MirrorEntry → MirrorResult → W → MirrorResult × W
      unfolding local_loop downloads run_transfers jobs_for on_download remote_path
      execute_down sched actions r0 w0 =
          let (r1, w1) = local_loop actions r0 w0 in
          run_transfers c on_download sched (jobs_for (downloads actions) fetch) r1 w1
