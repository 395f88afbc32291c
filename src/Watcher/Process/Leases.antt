-- ===== src/Watcher/Process/Leases.antt =====
-- internal/watcher/queue.go, `processUpload`: leases, reports and deletions of a task.
use mathlib.Core.Bool.{true≢false}
use sfync.Base.{ℕ, zero, suc, ◌+◌, ◌≤◌, ◌≡◌, refl, Text, Option, none, some, List, [], ◌∷◌}
use sfync.Base.{text_eq, Bool, true, false, not, if◌then◌else◌, leb, arith}
use sfync.Base.Dict.{Dict, lookup}
use sfync.Base.Paths.{dir}
use sfync.Config.{Profile}
use sfync.Ignore.{Matcher}
use sfync.Transfer.Client.{Error}
use sfync.Transfer.Remote.{RemoteClient, Answer, ok, err}
use sfync.Transfer.Mirror.Execute.{resume_threshold}
use sfync.Watcher.Flight.{UploadTask}
use sfync.Watcher.Process.{
  FileState, gone, unknown, special, regular, Surroundings, Event, acquired, uploading, deleting,
  released, succeeded, failed, Work, Target, Verdict, finished, again, dir_known, remember_dir,
  forget_dirs, delete_remote, after_delete, delete_with, after_upload, after_mkdir, upload_with,
  with_lease, attempt, then_wait, then_fail, attempts, delay, target_of, is_left_out, on_target,
  on_profile, process_upload, give_back,
}

abbrev leases : Event → ℕ
leases acquired = 1
leases _ = 0

abbrev returns : Event → ℕ
returns (released _) = 1
returns _ = 0

abbrev reports : Event → ℕ
reports (succeeded _) = 1
reports (failed _ _ _) = 1
reports _ = 0

abbrev deletions : Event → ℕ
deletions deleting = 1
deletions _ = 0

abbrev pub tally : (Event → ℕ) → List Event → ℕ
tally f [] = 0
tally f (e ∷ l) = f e + tally f l

-- How many reports an attempt may make.
abbrev ends : Verdict → ℕ
ends finished = 1
ends (again _) = 0

-- From the log `l` on, `k` leases more were given back than taken, at most `n` reports made, and
-- nothing was deleted unless it is allowed.
abbrev pub Fair : ℕ → ℕ → Bool → List Event → List Event → Type 0
Fair k n allowed l l' =
    (tally returns l' + tally leases l ≡ tally returns l + tally leases l' + k)
    × (tally reports l' ≤ tally reports l + n)
    × (allowed ≡ false → tally deletions l' ≡ tally deletions l)

module _ {W : Type 0} (around : Surroundings W) (name : Text) (profile : Profile) (t : Target) where
  after_upload-Fair :
      (allowed : Bool) (answer : Option Error × W) (s : Work W)
      → let r = after_upload around name profile t answer s in
        Fair 1 (ends r.0) allowed s.log r.1.log
  unfolding forget_dirs
  after_upload-Fair allowed (none, w) s = (omega arith, omega arith, λ _. omega arith)
  after_upload-Fair allowed (some e, w) s = (omega arith, omega arith, λ _. omega arith)

  after_mkdir-Fair :
      (allowed large : Bool) (c : RemoteClient W) (made : Option Error × W) (s : Work W)
      → let r = after_mkdir around name profile t large c made s in
        Fair 1 (ends r.0) allowed s.log r.1.log
  unfolding remember_dir
  after_mkdir-Fair allowed large c (some e, w) s = (omega arith, omega arith, λ _. omega arith)
  after_mkdir-Fair allowed large c (none, w) s =
      let (balance, said, kept) =
        after_upload-Fair allowed
          (if large then c.upload_resume t.abs_file t.remote w else c.upload t.abs_file t.remote w)
          (remember_dir name (dir t.remote) (record s { log = uploading ∷ s.log; world = w })) in
      (omega arith, omega arith, λ e. omega (arith, kept e))

  upload_with-Fair :
      (allowed large : Bool) (c : RemoteClient W) (s : Work W)
      → let r = upload_with around name profile t large c s in
        Fair 1 (ends r.0) allowed s.log r.1.log
  unfolding upload_with
  upload_with-Fair allowed large c s =
      after_mkdir-Fair allowed large c
        (if dir_known name (dir t.remote) s
          then (none, s.world)
          else c.mkdir_all (dir t.remote) s.world)
        s

  after_delete-Fair :
      (deleted : Bool) (e : Option Error) (s : Work W)
      → let r = after_delete around name profile t deleted e s in
        Fair 0 (ends r.0) true s.log r.1.log
  after_delete-Fair true none s = (omega arith, omega arith, λ h. ground arith)
  after_delete-Fair false none s = (omega arith, omega arith, λ h. ground arith)
  after_delete-Fair true (some e) s = (omega arith, omega arith, λ h. ground arith)
  after_delete-Fair false (some e) s = (omega arith, omega arith, λ h. ground arith)

  forgetting-Fair :
      (deleted : Bool) (e : Option Error) (s : Work W)
      → let r =
          after_delete around name profile t deleted e
            (if deleted then forget_dirs name s else s) in
        Fair 0 (ends r.0) true s.log r.1.log
  unfolding forget_dirs
  forgetting-Fair true e s = after_delete-Fair true e (forget_dirs name s)
  forgetting-Fair false e s = after_delete-Fair false e s

  delete_with-Fair :
      (final : Bool) (c : RemoteClient W) (s : Work W)
      → let r = delete_with around name profile t final c s in Fair 1 (ends r.0) true s.log r.1.log
  unfolding delete_with
  delete_with-Fair final c s =
      let ((deleted, e), w) = delete_remote c t.remote final s.world in
      let (balance, said, kept) =
        forgetting-Fair deleted e
          (give_back around name profile t e (record s { log = deleting ∷ s.log; world = w })) in
      (omega arith, omega arith, λ h. absurd (true≢false h))

  with_lease-Fair :
      (allowed : Bool) (body : RemoteClient W → Work W → Verdict × Work W)
      → ((c : RemoteClient W) (s : Work W)
          → let r = body c s in Fair 1 (ends r.0) allowed s.log r.1.log)
      → (answer : Answer (RemoteClient W) × W) (s : Work W)
      → let r = with_lease around name profile t body answer s in
        Fair 0 (ends r.0) allowed s.log r.1.log
  with_lease-Fair allowed body h (err e, w) s = (omega arith, omega arith, λ _. refl)
  with_lease-Fair allowed body h (ok c, w) s =
      let (balance, said, kept) = h c (record s { log = acquired ∷ s.log; world = w }) in
      (omega arith, omega arith, λ e. omega (arith, kept e))

  gone-Fair :
      (allowed available final : Bool) (s : Work W)
      → let r =
          (if not allowed
            then (finished, s)
            else if not available
            then (finished, s)
            else with_lease around name profile t
                (delete_with around name profile t final)
                (around.acquire name s.world)
                s) in
        Fair 0 (ends r.0) allowed s.log r.1.log
  gone-Fair false available final s = (omega arith, omega arith, λ _. refl)
  gone-Fair true false final s = (omega arith, omega arith, λ _. refl)
  gone-Fair true true final s =
      with_lease-Fair true (delete_with around name profile t final) (delete_with-Fair final)
        (around.acquire name s.world) s

  attempt-Fair :
      (final : Bool) (state : FileState) (s : Work W)
      → let r = attempt around name profile t final state s in
        Fair 0 (ends r.0) profile.auto_sync_deletes s.log r.1.log
  unfolding attempt
  attempt-Fair final gone s =
      gone-Fair profile.auto_sync_deletes (around.has_context t.abs_context s.world) final s
  attempt-Fair final special s = (omega arith, omega arith, λ _. refl)
  attempt-Fair final unknown s =
      with_lease-Fair profile.auto_sync_deletes (upload_with around name profile t false)
        (upload_with-Fair profile.auto_sync_deletes false) (around.acquire name s.world) s
  attempt-Fair final (regular size) s =
      with_lease-Fair profile.auto_sync_deletes
        (upload_with around name profile t (leb resume_threshold size))
        (upload_with-Fair profile.auto_sync_deletes (leb resume_threshold size))
        (around.acquire name s.world) s

  then_fail-Fair :
      (allowed : Bool) (l : List Event) (r : Verdict × Work W)
      → Fair 0 (ends r.0) allowed l r.1.log
      → Fair 0 1 allowed l (then_fail around name profile t r).log
  then_fail-Fair allowed l (finished, s) h = h
  then_fail-Fair allowed l (again e, s) (balance, said, kept) =
      (omega arith, omega arith, λ h. omega (arith, kept h))

  then_wait-Fair :
      (allowed : Bool) (time : ℕ) (rest : Work W → Work W) (l : List Event) (r : Verdict × Work W)
      → ((s : Work W) → Fair 0 1 allowed s.log (rest s).log)
      → Fair 0 (ends r.0) allowed l r.1.log
      → Fair 0 1 allowed l (then_wait around name profile t time rest r).log
  then_wait-Fair allowed time rest l (finished, s) ih h = h
  then_wait-Fair allowed time rest l (again e, s) ih h = paused (around.pause time s.world) h
    where
      paused :
          (answer : Bool × W)
          → Fair 0 0 allowed l s.log
          → Fair 0 1 allowed l
              (if answer.0
                then record s { world = answer.1 }
                else rest (record s { world = answer.1 })).log
      paused (true, w) (balance, said, kept) = (balance, omega arith, kept)
      paused (false, w) (balance, said, kept) =
          let (balance', said', kept') = ih (record s { world = w }) in
          (omega arith, omega arith, λ h. omega (arith, kept h, kept' h))

  attempts-Fair :
      (left : ℕ) (s : Work W)
      → Fair 0 1 profile.auto_sync_deletes s.log (attempts around name profile t left s).log
  unfolding attempts
  attempts-Fair zero s =
      then_fail-Fair profile.auto_sync_deletes s.log _
        (attempt-Fair true (around.stat_file t.abs_file s.world) s)
  attempts-Fair (suc left) s =
      then_wait-Fair profile.auto_sync_deletes (delay around name profile t (suc left))
        (attempts around name profile t left) s.log _ (attempts-Fair left)
        (attempt-Fair false (around.stat_file t.abs_file s.world) s)

-- Whether the profile of a task wants files deleted that are gone; false without a profile.
abbrev pub wants_deletes : Option Profile → Bool
wants_deletes none = false
wants_deletes (some profile) = profile.auto_sync_deletes

module _ {W : Type 0} (around : Surroundings W) (glob : Matcher) where
  on_target-Fair :
      (name : Text) (profile : Profile) (t : Option Target) (s : Work W)
      → Fair 0 1 profile.auto_sync_deletes s.log (on_target around glob name profile t s).log
  on_target-Fair name profile none s = (omega arith, omega arith, λ _. refl)
  on_target-Fair name profile (some t) s = unless (is_left_out around glob t s.world)
    where
      unless :
          (b : Bool)
          → Fair 0 1 profile.auto_sync_deletes s.log
              (if b then s else attempts around name profile t 2 s).log
      unless true = (omega arith, omega arith, λ _. refl)
      unless false = attempts-Fair around name profile t 2 s

  on_profile-Fair :
      (task : UploadTask) (profile : Option Profile) (s : Work W)
      → Fair 0 1 (wants_deletes profile) s.log (on_profile around glob task profile s).log
  on_profile-Fair task none s = (omega arith, omega arith, λ _. refl)
  on_profile-Fair task (some profile) s =
      on_target-Fair task.profile_name profile
        (target_of around glob profile (around.absolute task.file_path)
          (around.absolute profile.context))
        s

  -- Whatever the disk, the pool and the server answer: `processUpload` gives back as many leases as
  -- it takes, calls onSuccess and onError at most once in all, and deletes nothing if the profile of
  -- the task is missing or has automatic deletion off.
  pub process_upload-Fair :
      (profiles : Dict Text Profile) (task : UploadTask) (s : Work W)
      → Fair 0 1
          (wants_deletes (lookup task.profile_name profiles))
          s.log
          (process_upload around glob profiles task s).log
  unfolding process_upload
  process_upload-Fair profiles task s = on_profile-Fair task (lookup task.profile_name profiles) s
