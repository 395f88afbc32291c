-- ===== src/Transfer/Ftp/Dirs.antt =====
-- internal/transfer/ftp.go: what `MkdirAll` and the operations that are one command each do on their
-- connection. `begin`, which only sets a deadline, is left out.
use sfync.Base.{Text, codes, Option, none, some, List, [], ◌∷◌, ◌++◌}
use sfync.Base.{if◌then◌else◌, nat_eq, text_eq}
use sfync.Base.Paths.{split}
use sfync.Transfer.Client.{Error, library, wrapped, cause, clean_message, error_text}
use sfync.Transfer.Remote.{Answer, ok, err}
use sfync.Transfer.Sftp.Dirs.{join_component}
use sfync.Transfer.Ftp.{FtpEntry, Connection, SessionError, reported, lost, broken, wrap}
use sfync.Transfer.Ftp.Clock.{is_folder}

module _ {W : Type 0} (c : Connection W) where
  abbrev pub wrapped_by : Text → Option Error × W → Option SessionError × W
  wrapped_by op (none, w) = (none, w)
  wrapped_by op (some e, w) = (some (reported (wrap op e)), w)

  -- `Mkdir`
  unfoldable pub mkdir : Text → W → Option SessionError × W
  unfolding clean_message
  mkdir remote_path w = wrapped_by (codes "mkdir") (c.make_dir remote_path w)

  -- `Remove`
  unfoldable pub remove : Text → W → Option SessionError × W
  unfolding clean_message
  remove remote_path w = wrapped_by (codes "remove") (c.delete remote_path w)

  -- `RemoveDir`
  unfoldable pub remove_dir : Text → W → Option SessionError × W
  unfolding clean_message
  remove_dir remote_path w = wrapped_by (codes "rmdir") (c.remove_dir remote_path w)

  -- `errors.Join(errBrokenSession, restoreErr)`
  abbrev pub joined : Error → Error
  joined e = library (record {
    text = codes "ftp session state lost" ++ (10 ∷ error_text e);
    not_exist = (cause e).not_exist;
    deadline = (cause e).deadline;
    reply = (cause e).reply;
  })

  abbrev pub not_restored : Text → Error → SessionError
  not_restored current e = lost (
      wrap (codes "mkdir") (
        wrapped
          (codes "failed to restore working directory after checking " ++ (current ++ codes ": "))
          (joined e)))

  -- Behind the `ChangeDir` back, with the outcome of the first one.
  abbrev pub after_restore :
      Text → Error → Option Error → Option Error × W → Option SessionError × W
  after_restore current e cd_err (some restore_err, w) =
      (some (not_restored current restore_err), w)
  after_restore current e none (none, w) = (none, w)
  after_restore current e (some _) (none, w) = (some (reported (wrap (codes "mkdir") e)), w)

  abbrev pub after_change : Text → Text → Error → Option Error × W → Option SessionError × W
  after_change current cwd e (cd_err, w) = after_restore current e cd_err (c.change_dir cwd w)

  -- Whether a path that could not be made is a directory.
  abbrev pub check_exists : Text → Error → Answer Text × W → Option SessionError × W
  check_exists current e (ok cwd, w) = after_change current cwd e (c.change_dir current w)
  check_exists current e (err _, w) = (some (reported (wrap (codes "mkdir") e)), w)

  abbrev pub after_make : Text → Option Error × W → Option SessionError × W
  after_make current (none, w) = (none, w)
  after_make current (some e, w) =
      if broken c e
      then (some (reported (wrap (codes "mkdir") e)), w)
      else check_exists current e (c.current_dir w)

  abbrev pub unless_left :
      (W → Option SessionError × W) → Option SessionError × W → Option SessionError × W
  unless_left rest (none, w) = rest w
  unless_left rest (some e, w) = (some e, w)

  -- The loop of `MkdirAll`, from the current path.
  unfoldable pub walk : List Text → Text → W → Option SessionError × W
  unfolding join_component clean_message error_text cause
  walk [] current w = (none, w)
  walk ([] ∷ rest) current w = walk rest (codes "/") w
  walk ((b ∷ bs) ∷ rest) current w =
      let next = join_component current (b ∷ bs) in
      unless_left (walk rest next) (after_make next (c.make_dir next w))

  -- The fast path, with MLST.
  abbrev pub after_entry : Text → Answer FtpEntry × W → Option SessionError × W
  after_entry remote_path (ok entry, w) =
      if is_folder entry.entry_type then (none, w) else walk (split remote_path) [] w
  after_entry remote_path (err e, w) =
      if broken c e
      then (some (reported (wrap (codes "mkdir") e)), w)
      else walk (split remote_path) [] w

  -- `MkdirAll`
  unfoldable pub mkdir_all : Text → W → Option SessionError × W
  unfolding split walk clean_message
  mkdir_all remote_path w =
      if c.time_precise_in_list
      then after_entry remote_path (c.get_entry remote_path w)
      else walk (split remote_path) [] w
