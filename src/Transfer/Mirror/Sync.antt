-- ===== src/Transfer/Mirror/Sync.antt =====
-- internal/transfer/mirror.go: `MirrorUp` and `MirrorDown`. The fuel of the walk of the server, and
-- the choices of the scheduler for it and for each run of transfers, are arguments; what is printed is left out. The walks return no error, so the branches of the
-- program for one are left out.
pub mod Accounts
pub mod Returns
pub mod Tests
use sfync.Base.{ℕ, ◌+◌, Text, codes, Option, none, some, List, [], ◌∷◌, ◌++◌, Bool, true, false}
use sfync.Base.{if◌then◌else◌}
use sfync.Base.Dict.{Dict}
use sfync.Config.{Profile}
use sfync.Ignore.{Matcher, load}
use sfync.Transfer.Types.{FileInfo, RemoteFileInfo, MirrorEntry, MirrorAction}
use sfync.Transfer.Types.{action_upload, action_download, action_delete, action_delete_dir}
use sfync.Transfer.Types.{action_mkdir, action_skip, action_conflict}
use sfync.Transfer.Client.{Error, wrapped, wrap_error, library}
use sfync.Transfer.Remote.{RemoteClient, Answer, ok, err, Disk}
use sfync.Transfer.Mirror.Diff.{diff_trees}
use sfync.Transfer.Mirror.Order.{SliceSort, sort_actions}
use sfync.Transfer.Mirror.Execute.{MirrorResult, execute_up, execute_down}
use sfync.Transfer.Mirror.Scan.{walk_local}
use sfync.Transfer.Mirror.Scan.Remote.{walk_remote}

abbrev pub no_result : MirrorResult
no_result = record {
  uploaded = 0;
  downloaded = 0;
  deleted = 0;
  created = 0;
  skipped = 0;
  warnings = [];
  errors = [];
  success = false;
  actions = [];
}

abbrev pub is_skip : MirrorAction → ℕ
is_skip action_skip = 1
is_skip _ = 0

-- The loop that counts the skips.
unfoldable pub count_skips : List MirrorEntry → ℕ
count_skips [] = 0
count_skips (a ∷ actions) = is_skip a.action + count_skips actions

-- `len(errors) == 0`
abbrev pub is_clean : List Text → Bool
is_clean [] = true
is_clean (_ ∷ _) = false

-- `result.Success = len(result.Errors) == 0`
abbrev pub conclude : {W : Type 0} → MirrorResult × W → MirrorResult × W
conclude (r, w) = (record r { success = is_clean r.errors }, w)

-- `wrapError(op, e)`, for an error that is not nil.
abbrev pub wrap : Text → Error → Error
wrap op e = elim (wrap_error op (some e)) [ none ↦ e | some e2 ↦ e2 ]

module _ {W : Type 0} (S : SliceSort) (glob : Matcher) (c : RemoteClient W) (disk : Disk W) where
  module _ (sched : W → ℕ → ℕ) (profile : Profile) (dry_run : Bool) where
    -- From the comparison of the two trees on.
    unfoldable pub carry_out_up :
        Dict Text FileInfo → Dict Text RemoteFileInfo → W → MirrorResult × W
    unfolding diff_trees sort_actions count_skips execute_up
    carry_out_up local remote w =
        let found = diff_trees local remote true in
        let planned = sort_actions S found in
        let r = record no_result { skipped = count_skips found } in
        let (done, w') = conclude (execute_up c profile sched planned r w) in
        if dry_run then (record r { actions = planned; success = true }, w) else (done, w')

    unfoldable pub carry_out_down :
        Dict Text FileInfo → Dict Text RemoteFileInfo → W → MirrorResult × W
    unfolding diff_trees sort_actions count_skips execute_down
    carry_out_down local remote w =
        let found = diff_trees local remote false in
        let planned = sort_actions S found in
        let r = record no_result { skipped = count_skips found } in
        let (done, w') = conclude (execute_down c profile disk sched planned r w) in
        if dry_run then (record r { actions = planned; success = true }, w) else (done, w')

    abbrev pub Mirrored : Type 0
    Mirrored = Option (Answer MirrorResult × W)

    abbrev pub after_walk :
        (Dict Text RemoteFileInfo → W → MirrorResult × W)
        → Option (Dict Text RemoteFileInfo × W)
        → Mirrored
    after_walk rest none = none
    after_walk rest (some (remote, w)) = let (r, w') = rest remote w in some (ok r, w')

    -- The patterns, the two walks, and the rest.
    abbrev pub after_load :
        ℕ
        → (Dict Text FileInfo → Dict Text RemoteFileInfo → W → MirrorResult × W)
        → Option (List Text)
        → W
        → Mirrored
    after_load fuel rest none w = some (
      err (wrapped (codes "failed to load .syncignore: ") (disk.ignore_error profile.context w)),
      w,
    )
    after_load fuel rest (some patterns) w =
        after_walk (rest (walk_local glob patterns (disk.tree profile.context w)))
          (walk_remote glob patterns c sched fuel profile.remote_path w)

    abbrev pub scan :
        ℕ → (Dict Text FileInfo → Dict Text RemoteFileInfo → W → MirrorResult × W) → W → Mirrored
    scan fuel rest w = after_load fuel rest (load (disk.ignore_file profile.context w)) w

    abbrev pub cannot_create : Error → Error
    cannot_create e = wrap (codes "mirror") (
        wrapped
          (codes "remote path "
            ++ (profile.remote_path ++ codes " does not exist and cannot be created: "))
          e)

    -- The result of `MkdirAll` for the root on the server.
    abbrev pub after_create : ℕ → Option Error × W → Mirrored
    after_create fuel (none, w) = scan fuel carry_out_up w
    after_create fuel (some e, w) = some (err (cannot_create e), w)

    abbrev pub after_stat_up : ℕ → Answer RemoteFileInfo × W → Mirrored
    after_stat_up fuel (ok info, w) = scan fuel carry_out_up w
    after_stat_up fuel (err e, w) = after_create fuel (c.mkdir_all profile.remote_path w)

    -- `MirrorUp`
    unfoldable pub mirror_up : ℕ → W → Mirrored
    unfolding carry_out_up walk_local walk_remote load wrap_error
    mirror_up fuel w = after_stat_up fuel (c.stat profile.remote_path w)

    -- The error for a root that is not there.
    abbrev pub no_root : Error
    no_root = wrap (codes "mirror") (
        library (record {
          text = codes "remote path does not exist: " ++ profile.remote_path;
          not_exist = false;
          deadline = false;
          reply = none;
        }))

    abbrev pub after_stat_down : ℕ → Answer RemoteFileInfo × W → Mirrored
    after_stat_down fuel (ok info, w) = scan fuel carry_out_down w
    after_stat_down fuel (err e, w) = some (err no_root, w)

    -- `MirrorDown`
    unfoldable pub mirror_down : ℕ → W → Mirrored
    unfolding carry_out_down walk_local walk_remote load wrap_error
    mirror_down fuel w = after_stat_down fuel (c.stat profile.remote_path w)
