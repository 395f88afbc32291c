-- ===== src/Transfer/Sftp.antt =====
-- internal/transfer/sftp.go: transfers of files, and directories, over an SFTP session. A session of
-- package sftp, and the deadlines, are parameters; a handle of a remote file is its path.
-- `closing` stands for the three concurrent requests behind an upload, one after the other.
pub mod Server
pub mod Replace
pub mod Upload
pub mod Fetch
pub mod Sessions
pub mod Dirs
use sfync.Base.{
  ℕ, ◌+◌, ◌*◌, Text, codes, Option, none, some, List, [], ◌∷◌, ◌++◌, Bool, true, false,
}
use sfync.Base.{◌&&◌, ◌||◌, not, leb, ltb, if◌then◌else◌, ◌==◌, nat_eq, text_eq, drop, has_prefix}
use sfync.Base.Paths.{dir}
use sfync.Transfer.Types.{RemoteFileInfo}
use sfync.Transfer.Client.{Error, cause, clean_message, wrap_new, is_safe_entry_name}
use sfync.Transfer.Remote.{Answer, ok, err}
use sfync.Transfer.Atomic.{
  LocalFile, LocalDisk, Source, remote_partial_path, can_resume_partial, write_local_atomic,
}

-- An entry of a listing: an os.FileInfo.
pub record Entry : Type 0 where
  pub name : Text
  pub size : ℕ
  pub mod_time : ℕ
  pub is_dir : Bool
  pub is_symlink : Bool
  pub mode : ℕ

-- `*sftp.Client` and `*sftp.File`. `seek_local` is a Seek in the local file; `copy` writes bytes
-- behind an offset of a remote file; `read_at` is ReadAt at 0, and `read_all` reads to the end.
pub record Session (W : Type 0) : Type 0 where
  pub stat : Text → W → Answer Entry × W
  pub read_dir : Text → W → Answer (List Entry) × W
  pub open_file : Text → Bool → W → Option Error × W
  pub seek_local : ℕ → W → Option Error × W
  pub copy : Text → ℕ → List ℕ → W → Option Error × W
  pub close : Text → W → Option Error × W
  pub chmod : Text → ℕ → W → Option Error × W
  pub chtimes : Text → ℕ → W → Option Error × W
  pub posix_rename_extension : Bool
  pub posix_rename : Text → Text → W → Option Error × W
  pub rename : Text → Text → W → Option Error × W
  pub remove : Text → W → Option Error × W
  pub mkdir : Text → W → Option Error × W
  pub remove_directory : Text → W → Option Error × W
  pub open_read : Text → W → Option Error × W
  pub read_at : Text → ℕ → W → Answer (List ℕ) × W
  pub read_all : Text → W → Source × W

abbrev pub default_sftp_packet_size : ℕ
default_sftp_packet_size = 32 * 1024

abbrev pub open_ssh_packet_size : ℕ
open_ssh_packet_size = 128 * 1024

-- `sftpPacketSize`
unfoldable pub sftp_packet_size : Text → ℕ
unfolding has_prefix
sftp_packet_size version =
    if has_prefix version (codes "SSH-2.0-OpenSSH_")
    then open_ssh_packet_size
    else default_sftp_packet_size

-- `sftpSessionBroken`. The flags of a library error: fs.ErrPermission, *sftp.StatusError and
-- *fs.PathError in its chain.
unfoldable pub sftp_session_broken : Option Error → Bool → Bool → Bool → Bool
unfolding cause
sftp_session_broken none permission status path_error = false
sftp_session_broken (some e) permission status path_error =
    if (cause e).not_exist || permission then false else if status then false else not path_error

-- `fileInfoToRemote`
unfoldable pub file_info_to_remote : Entry → Text → RemoteFileInfo
file_info_to_remote info rel_path = record {
  name = info.name;
  path = rel_path;
  size = info.size;
  mod_time = info.mod_time;
  is_dir = info.is_dir;
  mode = info.mode;
  mod_time_precision = 0;
}

-- The loop of `ReadDir`.
unfoldable pub remote_entries : List Entry → List RemoteFileInfo
unfolding is_safe_entry_name file_info_to_remote
remote_entries [] = []
remote_entries (entry ∷ entries) =
    let rest = remote_entries entries in
    if entry.is_symlink
    then rest
    else if not (is_safe_entry_name entry.name)
    then rest
    else file_info_to_remote entry [] ∷ rest

-- `wrapError` of an error that is not nil.
abbrev pub wrap : Text → Error → Error
wrap op e = wrap_new op e (clean_message e)

abbrev pub missing_only : Error → Bool
missing_only e = (cause e).not_exist

module _ {W : Type 0} (s : Session W) where
  abbrev pub read_answer : Answer (List Entry) × W → Answer (List RemoteFileInfo) × W
  read_answer (ok entries, w) = (ok (remote_entries entries), w)
  read_answer (err e, w) = (err (wrap (codes "readdir") e), w)

  -- `ReadDir`
  unfoldable pub read_dir : Text → W → Answer (List RemoteFileInfo) × W
  unfolding remote_entries clean_message
  read_dir remote_path w = read_answer (s.read_dir remote_path w)

  -- `sftpReplace`, behind the removal of `dst`, behind the first rename, and as a whole.
  abbrev pub after_remove : Text → Text → Option Error × W → Option Error × W
  after_remove src dst (none, w) = s.rename src dst w
  after_remove src dst (some e, w) = if missing_only e then s.rename src dst w else (some e, w)

  abbrev pub after_rename : Text → Text → Option Error × W → Option Error × W
  after_rename src dst (none, w) = (none, w)
  after_rename src dst (some e, w) = after_remove src dst (s.remove dst w)

  unfoldable pub sftp_replace : Text → Text → W → Option Error × W
  unfolding cause
  sftp_replace src dst w =
      if s.posix_rename_extension
      then s.posix_rename src dst w
      else after_rename src dst (s.rename src dst w)

  -- The offset from which `uploadOn` continues a partial file.
  abbrev pub offset_of : LocalFile → Answer Entry → ℕ
  offset_of local (ok info) =
      if can_resume_partial info.size info.mod_time local then info.size else 0
  offset_of local (err e) = 0

  unfoldable pub resume_offset : Bool → Text → LocalFile → W → ℕ × W
  unfolding can_resume_partial
  resume_offset false partial local w = (0, w)
  resume_offset true partial local w =
      let (answer, w') = s.stat partial w in (offset_of local answer, w')

  module _ (op : Text) (resume : Bool) (local : LocalFile) (partial : Text) where
    -- A failure before the rename: a partial that will not be continued is removed.
    abbrev pub abandon : Error → W → Option Error × W
    abandon e w = (some (wrap op e), if resume then w else (s.remove partial w).1)

    abbrev pub after_replace : Option Error × W → Option Error × W
    after_replace (none, w) = (none, w)
    after_replace (some e, w) = (some (wrap op e), (s.remove partial w).1)

    abbrev pub after_close : Text → Option Error → W → Option Error × W
    after_close remote_path none w = after_replace (sftp_replace partial remote_path w)
    after_close remote_path (some e) w = abandon e w

    -- The close, the mode and the time; only an error of the close counts.
    abbrev pub closing : Text → W → Option Error × W
    closing remote_path w =
        let (closed, w1) = s.close partial w in
        let (_, w2) = s.chmod partial local.mode w1 in
        let (_, w3) = s.chtimes partial local.mod_time w2 in after_close remote_path closed w3

    abbrev pub after_copy : Text → Option Error × W → Option Error × W
    after_copy remote_path (none, w) = closing remote_path w
    after_copy remote_path (some e, w) = abandon e (s.close partial w).1

    abbrev pub after_seek : Text → ℕ → Option Error × W → Option Error × W
    after_seek remote_path offset (none, w) =
        after_copy remote_path (s.copy partial offset (drop offset local.content) w)
    after_seek remote_path offset (some e, w) = after_copy remote_path (some e, w)

    abbrev pub after_open : Text → ℕ → Option Error × W → Option Error × W
    after_open remote_path offset (none, w) =
        after_seek remote_path offset (if ltb 0 offset then s.seek_local offset w else (none, w))
    after_open remote_path offset (some e, w) = (some (wrap op e), w)

    -- `uploadOn`, once the offset is known.
    abbrev pub upload_from : Text → ℕ × W → Option Error × W
    upload_from remote_path (offset, w) =
        after_open remote_path offset (s.open_file partial (offset == 0) w)

  unfoldable pub upload_on : Text → LocalFile → Text → Bool → W → Option Error × W
  unfolding sftp_replace resume_offset remote_partial_path clean_message
  upload_on op local remote_path resume w =
      let partial = remote_partial_path remote_path in
      upload_from op resume local partial remote_path (resume_offset resume partial local w)
