-- ===== src/Watcher/Process.antt =====
-- internal/watcher/queue.go: `processUpload`, `deleteRemote` and the remembered directories. One
-- worker runs from the claim of a task to its end; what other workers do meanwhile to the remembered
-- directories is left out. The pool, the disk, the clock and the working directory are parameters.
pub mod Leases
pub mod Tests
use sfync.Base.{
  ℕ, zero, suc, ◌*◌, ◌+◌, ◌^◌, ◌-◌, Text, codes, Option, none, some, List, [], ◌∷◌, ◌++◌,
}
use sfync.Base.{
  Bool, true, false, not, ◌||◌, leb, if◌then◌else◌, ◌==◌, nat_eq, text_eq, cut_prefix, has_prefix,
}
use sfync.Base.Dict.{Dict, lookup, insert}
use sfync.Base.Paths.{join, dir, base}
use sfync.Config.{Profile}
use sfync.Ignore.{Matcher, IgnoreFile, load, should_ignore}
use sfync.Transfer.Types.{RemoteFileInfo, second}
use sfync.Transfer.Client.{Error, wrapped, is_not_exist}
use sfync.Transfer.Remote.{RemoteClient, Answer, ok, err}
use sfync.Transfer.Mirror.Execute.{resume_threshold}
use sfync.Transfer.Mirror.Scan.{is_partial_name}
use sfync.Watcher.Flight.{UploadTask, get_or_false}

-- What `os.Stat` says of the file: that it does not exist, another error, that it is no regular
-- file, or its size.
pub data FileState : Type 0 where
  gone unknown special : FileState
  regular : ℕ → FileState

-- `clientSource` and the rest of the surroundings. `pause` is the select on a timer and `done`, and
-- answers true where `done` was first.
pub record Surroundings (W : Type 0) : Type 0 where
  pub acquire : Text → W → Answer (RemoteClient W) × W
  pub release : Option Error → W → W
  pub stat_file : Text → W → FileState
  pub has_context : Text → W → Bool
  pub pause : ℕ → W → Bool × W
  pub absolute : Text → Option Text
  pub ignore_file : Text → W → IgnoreFile

-- What a worker does that others see.
pub data Event : Type 0 where
  acquired uploading deleting : Event
  released : Option Error → Event
  succeeded : Text → Event
  failed : Text → Error → ℕ → Event

-- `known_dirs` is `knownDirs`; the log has the latest event first.
pub record Work (W : Type 0) : Type 0 where
  pub known_dirs : Dict Text Bool
  pub log : List Event
  pub world : W

unfoldable pub dir_key : Text → Text → Text
dir_key profile remote_dir = profile ++ 0 ∷ remote_dir

-- `forgetDirs` on the map.
unfoldable pub without_dirs : Text → Dict Text Bool → Dict Text Bool
unfolding has_prefix
without_dirs profile [] = []
without_dirs profile ((k, b) ∷ dirs) =
    let rest = without_dirs profile dirs in
    if profile == [] || has_prefix k (profile ++ 0 ∷ []) then rest else (k, b) ∷ rest

-- The path that a task is about.
pub record Target : Type 0 where
  pub abs_file : Text
  pub abs_context : Text
  pub rel_path : Text
  pub remote : Text

abbrev pub or_base : Text → Text → Option Text → Option Text
or_base file context (some after) = some after
or_base file context none = if file == context then some (base file) else none

-- The relative path; none for a file outside the context.
unfoldable pub rel_in : Text → Text → Option Text
unfolding cut_prefix base
rel_in file context = or_base file context (cut_prefix file (context ++ codes "/"))

-- The patterns; an error of `Load` is only a warning, and there are none.
abbrev pub patterns_of : Option (List Text) → List Text
patterns_of none = []
patterns_of (some ps) = ps

-- Whether the attempt ends the task, or the error with which it goes on.
pub data Verdict : Type 0 where
  finished : Verdict
  again : Error → Verdict

module _ {W : Type 0} where
  unfoldable pub dir_known : Text → Text → Work W → Bool
  unfolding dir_key lookup
  dir_known profile remote_dir s = get_or_false (lookup (dir_key profile remote_dir) s.known_dirs)

  unfoldable pub remember_dir : Text → Text → Work W → Work W
  unfolding dir_key insert
  remember_dir profile remote_dir s = record s {
    known_dirs = insert (dir_key profile remote_dir) true s.known_dirs;
  }

  unfoldable pub forget_dirs : Text → Work W → Work W
  unfolding without_dirs
  forget_dirs profile s = record s { known_dirs = without_dirs profile s.known_dirs }

  abbrev pub note : Event → Work W → Work W
  note e s = record s { log = e ∷ s.log }

  -- The outcome of `RemoveDir` and of `Remove` in `deleteRemote`.
  abbrev pub dir_removed : Bool → Option Error × W → (Bool × Option Error) × W
  dir_removed final (none, w) = ((true, none), w)
  dir_removed final (some e, w) =
      ((false, if final then none else some (wrapped (codes "directory not yet removable: ") e)), w)

  abbrev pub file_removed : Option Error × W → (Bool × Option Error) × W
  file_removed (none, w) = ((true, none), w)
  file_removed (some e, w) = ((false, if is_not_exist (some e) then none else some e), w)

  abbrev pub after_stat :
      RemoteClient W → Text → Bool → Answer RemoteFileInfo × W → (Bool × Option Error) × W
  after_stat c remote final (err e, w) =
      ((false, if is_not_exist (some e) then none else some e), w)
  after_stat c remote final (ok info, w) =
      if info.is_dir
      then dir_removed final (c.remove_dir remote w)
      else file_removed (c.remove remote w)

  unfoldable pub delete_remote : RemoteClient W → Text → Bool → W → (Bool × Option Error) × W
  unfolding is_not_exist
  delete_remote c remote final w = after_stat c remote final (c.stat remote w)

  module _ (around : Surroundings W) (name : Text) (profile : Profile) (t : Target) where
    -- `release(err)`
    abbrev pub give_back : Option Error → Work W → Work W
    give_back e s = record s { log = released e ∷ s.log; world = around.release e s.world }

    abbrev pub after_delete : Bool → Option Error → Work W → Verdict × Work W
    after_delete true none s = (finished, note (succeeded (t.rel_path ++ codes " (deleted)")) s)
    after_delete false none s = (finished, s)
    after_delete deleted (some e) s = (again e, s)

    -- The part of an attempt that deletes, with a lease.
    unfoldable pub delete_with : Bool → RemoteClient W → Work W → Verdict × Work W
    unfolding delete_remote forget_dirs
    delete_with final c s =
        let ((deleted, e), w) = delete_remote c t.remote final s.world in
        let back = give_back e (record s { log = deleting ∷ s.log; world = w }) in
        after_delete deleted e (if deleted then forget_dirs name back else back)

    abbrev pub after_upload : Option Error × W → Work W → Verdict × Work W
    after_upload (none, w) s =
        (finished, note (succeeded t.rel_path) (give_back none (record s { world = w })))
    after_upload (some e, w) s =
        (again e, forget_dirs name (give_back (some e) (record s { world = w })))

    abbrev pub after_mkdir : Bool → RemoteClient W → Option Error × W → Work W → Verdict × Work W
    after_mkdir large c (some e, w) s = (again e, give_back (some e) (record s { world = w }))
    after_mkdir large c (none, w) s =
        let kept =
          remember_dir name (dir t.remote) (record s { log = uploading ∷ s.log; world = w }) in
        after_upload
          (if large then c.upload_resume t.abs_file t.remote w else c.upload t.abs_file t.remote w)
          kept

    -- The part of an attempt that uploads, with a lease.
    unfoldable pub upload_with : Bool → RemoteClient W → Work W → Verdict × Work W
    unfolding dir_known remember_dir forget_dirs dir
    upload_with large c s =
        after_mkdir large c
          (if dir_known name (dir t.remote) s
            then (none, s.world)
            else c.mkdir_all (dir t.remote) s.world)
          s

    -- What follows `Acquire`.
    abbrev pub with_lease :
        (RemoteClient W → Work W → Verdict × Work W)
        → Answer (RemoteClient W) × W
        → Work W
        → Verdict × Work W
    with_lease body (err e, w) s = (again e, record s { world = w })
    with_lease body (ok c, w) s = body c (record s { log = acquired ∷ s.log; world = w })

    -- The body of the loop up to the wait, by what `os.Stat` says.
    unfoldable pub attempt : Bool → FileState → Work W → Verdict × Work W
    unfolding delete_with upload_with
    attempt final gone s =
        if not profile.auto_sync_deletes
        then (finished, s)
        else if not (around.has_context t.abs_context s.world)
        then (finished, s)
        else with_lease (delete_with final) (around.acquire name s.world) s
    attempt final special s = (finished, s)
    attempt final unknown s = with_lease (upload_with false) (around.acquire name s.world) s
    attempt final (regular size) s =
        with_lease (upload_with (leb resume_threshold size)) (around.acquire name s.world) s

    abbrev pub max_retries : ℕ
    max_retries = 3

    -- The wait after an attempt with so many left: 1 s after the first, 2 s after the second.
    abbrev pub delay : ℕ → ℕ
    delay left = 2 ^ (2 - left) * second

    -- What follows an attempt: the wait and the rest of the loop, or the end of the loop.
    abbrev pub then_wait : ℕ → (Work W → Work W) → Verdict × Work W → Work W
    then_wait time rest (finished, s) = s
    then_wait time rest (again e, s) =
        let (stopped, w) = around.pause time s.world in
        if stopped then record s { world = w } else rest (record s { world = w })

    abbrev pub then_fail : Verdict × Work W → Work W
    then_fail (finished, s) = s
    then_fail (again e, s) = note (failed t.rel_path e max_retries) s

    -- The loop, with the number of attempts left after this one.
    unfoldable pub attempts : ℕ → Work W → Work W
    unfolding attempt
    attempts zero s = then_fail (attempt true (around.stat_file t.abs_file s.world) s)
    attempts (suc left) s =
        then_wait (delay (suc left)) (attempts left)
          (attempt false (around.stat_file t.abs_file s.world) s)

  module _ (around : Surroundings W) (glob : Matcher) where
    -- The paths of a task, once they are absolute.
    unfoldable pub target_of : Profile → Option Text → Option Text → Option Target
    unfolding rel_in join
    target_of profile (some file) (some context) = elim (rel_in file context) [
      | none ↦ none
      | some rel ↦ some (record {
        abs_file = file;
        abs_context = context;
        rel_path = rel;
        remote = join (profile.remote_path ∷ rel ∷ []);
      })
    ]
    target_of profile (some file) none = none
    target_of profile none context = none

    -- Whether the file is passed over.
    unfoldable pub is_left_out : Target → W → Bool
    unfolding is_partial_name should_ignore load base
    is_left_out t w =
        is_partial_name (base t.abs_file)
        || should_ignore glob (patterns_of (load (around.ignore_file t.abs_context w))) t.rel_path

    abbrev pub on_target : Text → Profile → Option Target → Work W → Work W
    on_target name profile none s = s
    on_target name profile (some t) s =
        if is_left_out t s.world then s else attempts around name profile t 2 s

    abbrev pub on_profile : UploadTask → Option Profile → Work W → Work W
    on_profile task none s = s
    on_profile task (some profile) s =
        on_target task.profile_name profile
          (target_of profile (around.absolute task.file_path) (around.absolute profile.context)) s

    -- `processUpload`
    unfoldable pub process_upload : Dict Text Profile → UploadTask → Work W → Work W
    unfolding attempts target_of is_left_out lookup
    process_upload profiles task s = on_profile task (lookup task.profile_name profiles) s
