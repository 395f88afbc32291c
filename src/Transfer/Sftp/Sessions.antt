-- ===== src/Transfer/Sftp/Sessions.antt =====
-- internal/transfer/sftp.go, `transferSession`, and the transfers on the sessions it chooses. The pool of
-- extra sessions and the slots for large files are parameters.
use sfync.Base.{ℕ, ◌*◌, Bool, ◌&&◌, ◌||◌, not, ltb, if◌then◌else◌}
use sfync.Base.{Text, codes, Option, none, some, false}
use sfync.Base.Paths.{dir}
use sfync.Transfer.Client.{Error, clean_message}
use sfync.Transfer.Remote.{Answer, ok, err}
use sfync.Transfer.Atomic.{LocalFile, LocalDisk}
use sfync.Transfer.Sftp.{Entry, Session, sftp_session_broken, upload_on, wrap}
use sfync.Transfer.Sftp.Fetch.{download_on}

-- What a transfer holds: the primary session, without a slot or with one, or a session of its own,
-- with a slot.
pub data Lease (S : Type 0) : Type 0 where
  primary : Lease S
  primary_with_slot : Lease S
  own : S → Lease S

-- `largeSlots`, `xfer` and `xferDisabled`; `is_pool_closed` is errors.Is for errPoolClosed.
pub record ExtraSessions (S W : Type 0) : Type 0 where
  pub has_slots : Bool
  pub has_pool : Bool
  pub take_slot : W → W
  pub free_slot : W → W
  pub disabled : W → Bool
  pub disable : W → W
  pub acquire : W → Answer S × W
  pub release : S → Bool → W → W
  pub is_pool_closed : Error → Bool

abbrev pub large_transfer_size : ℕ
large_transfer_size = 1024 * 1024

module _ {S W : Type 0} (x : ExtraSessions S W) where
  -- A server that allows no extra session is not asked again.
  abbrev pub after_acquire : Answer S × W → Lease S × W
  after_acquire (ok s, w) = (own s, w)
  after_acquire (err e, w) =
      (primary_with_slot, if x.is_pool_closed e || x.disabled w then w else x.disable w)

  -- `transferSession`
  unfoldable pub transfer_session : ℕ → W → Lease S × W
  transfer_session size w =
      if ltb size large_transfer_size || not x.has_slots
      then (primary, w)
      else (let w1 = x.take_slot w in
          if x.has_pool && not (x.disabled w1)
          then after_acquire (x.acquire w1)
          else (primary_with_slot, w1))

  -- The function that it returns, with what sftpSessionBroken says of the transfer's error.
  unfoldable pub release_session : Lease S → Bool → W → W
  release_session primary broken w = w
  release_session primary_with_slot broken w = x.free_slot w
  release_session (own s) broken w = x.free_slot (x.release s broken w)

-- What the program asks of an error with errors.Is and errors.AsType: fs.ErrPermission,
-- *sftp.StatusError and *fs.PathError.
pub record ErrorKinds : Type 0 where
  pub permission : Error → Bool
  pub status : Error → Bool
  pub path_error : Error → Bool

abbrev pub broken_by : ErrorKinds → Option Error → Bool
broken_by k none = sftp_session_broken none false false false
broken_by k (some e) = sftp_session_broken (some e) (k.permission e) (k.status e) (k.path_error e)

module _ {S W : Type 0} (x : ExtraSessions S W) (k : ErrorKinds) (main : Session W)
    (extra : S → Session W) where
  abbrev pub session_of : Lease S → Session W
  session_of primary = main
  session_of primary_with_slot = main
  session_of (own s) = extra s

  -- A transfer on the session chosen for it, which then hears of the outcome.
  abbrev pub released : Lease S → Option Error × W → Option Error × W
  released lease (e, w) = (e, release_session x lease (broken_by k e) w)

  abbrev pub on_session : ℕ → (Session W → W → Option Error × W) → W → Option Error × W
  on_session size transfer w =
      let (lease, w') = transfer_session x size w in released lease (transfer (session_of lease) w')

  -- `upload`, with the local file or the error of opening it.
  abbrev pub opened : Text → Text → Bool → Answer LocalFile → W → Option Error × W
  opened op remote_path resume (err e) w = (some (wrap op e), w)
  opened op remote_path resume (ok file) w =
      on_session file.size (λ s w'. upload_on s op file remote_path resume w') w

  unfoldable pub upload : Text → Bool → Answer LocalFile → W → Option Error × W
  unfolding upload_on transfer_session release_session sftp_session_broken clean_message
  upload remote_path resume file w =
      opened (if resume then codes "resume" else codes "upload") remote_path resume file w

  module _ (d : LocalDisk W) (make_dirs : Text → W → Option Error × W) (packet : ℕ) where
    -- `DownloadKnown`, with `make_dirs` for os.MkdirAll.
    abbrev pub made_dirs : Text → Text → ℕ → ℕ → Option Error × W → Option Error × W
    made_dirs remote_path local_path size mtime (none, w) =
        on_session size (λ s w'. download_on s d packet remote_path local_path size mtime w') w
    made_dirs remote_path local_path size mtime (some e, w) = (some (wrap (codes "download") e), w)

    unfoldable pub download_known : Text → Text → ℕ → ℕ → W → Option Error × W
    unfolding download_on transfer_session release_session sftp_session_broken dir clean_message
    download_known remote_path local_path size mtime w =
        made_dirs remote_path local_path size mtime (make_dirs (dir local_path) w)

    abbrev pub with_info : Text → Text → Answer Entry × W → Option Error × W
    with_info remote_path local_path (ok info, w) =
        download_known remote_path local_path info.size info.mod_time w
    with_info remote_path local_path (err e, w) = (some (wrap (codes "download") e), w)

    -- `Download`
    unfoldable pub download : Text → Text → W → Option Error × W
    unfolding download_known clean_message
    download remote_path local_path w = with_info remote_path local_path (main.stat remote_path w)
