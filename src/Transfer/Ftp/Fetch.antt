-- ===== src/Transfer/Ftp/Fetch.antt =====
-- internal/transfer/ftp.go: what `Stat`, `ReadDir` and `download` do on their connection, with the
-- offset of the client's listings. `begin`, which only sets a deadline, is left out.
use sfync.Base.{ℕ, Text, codes, Option, none, some, List, [], ◌∷◌, Bool, true, false}
use sfync.Base.{not, if◌then◌else◌}
use sfync.Transfer.Types.{RemoteFileInfo}
use sfync.Transfer.Client.{Error, clean_message, remote_path, is_safe_entry_name}
use sfync.Transfer.Remote.{Answer, ok, err}
use sfync.Transfer.Atomic.{LocalDisk, Source, write_local_atomic}
use sfync.Transfer.Ftp.{EntryType, entry_file, entry_folder, entry_link, FtpEntry, Connection, wrap}
use sfync.Transfer.Ftp.Clock.{ListOffset, to_remote, detect_list_offset}

module _ {W : Type 0} (c : Connection W) (now : ℕ) where
  abbrev pub with_entry :
      Text → ListOffset → Answer FtpEntry × W → Answer RemoteFileInfo × ListOffset × W
  with_entry path o (err e, w) = (err (wrap (codes "stat") e), o, w)
  with_entry path o (ok entry, w) =
      let (_, o', w') = detect_list_offset c now path entry o w in
      (ok (to_remote c now o' entry), o', w')

  -- `Stat`
  unfoldable pub stat : Text → ListOffset → W → Answer RemoteFileInfo × ListOffset × W
  unfolding detect_list_offset to_remote clean_message
  stat path o w = with_entry path o (c.get_entry path w)

  -- The first loop of `ReadDir`, left when the offset is known.
  abbrev pub unless_known :
      (ListOffset → W → ListOffset × W) → Bool × ListOffset × W → ListOffset × W
  unless_known rest (true, o, w) = (o, w)
  unless_known rest (false, o, w) = rest o w

  unfoldable pub detect_from : Text → List FtpEntry → ListOffset → W → ListOffset × W
  unfolding detect_list_offset remote_path
  detect_from path [] o w = (o, w)
  detect_from path (entry ∷ entries) o w =
      unless_known (detect_from path entries)
        (detect_list_offset c now (remote_path (path ∷ entry.name ∷ [])) entry o w)

  abbrev pub is_link : EntryType → Bool
  is_link entry_file = false
  is_link entry_folder = false
  is_link entry_link = true

  -- The second loop.
  unfoldable pub remote_entries : ListOffset → List FtpEntry → List RemoteFileInfo
  unfolding is_safe_entry_name to_remote
  remote_entries o [] = []
  remote_entries o (entry ∷ entries) =
      let rest = remote_entries o entries in
      if is_link entry.entry_type
      then rest
      else if not (is_safe_entry_name entry.name)
      then rest
      else to_remote c now o entry ∷ rest

  abbrev pub with_entries :
      Text → ListOffset → Answer (List FtpEntry) × W → Answer (List RemoteFileInfo) × ListOffset × W
  with_entries path o (err e, w) = (err (wrap (codes "readdir") e), o, w)
  with_entries path o (ok entries, w) =
      let (o', w') = detect_from path entries o w in (ok (remote_entries o' entries), o', w')

  -- `ReadDir`
  unfoldable pub read_dir : Text → ListOffset → W → Answer (List RemoteFileInfo) × ListOffset × W
  unfolding detect_from remote_entries clean_message
  read_dir path o w = with_entries path o (c.list path w)

  module _ (d : LocalDisk W) where
    -- The time that a download gives the local file: Go's zero time, 0, where it is not known.
    abbrev pub entry_time : Text → ListOffset → Answer FtpEntry × W → ℕ × ListOffset × W
    entry_time path o (ok entry, w) =
        let (_, o', w') = detect_list_offset c now path entry o w in
        ((to_remote c now o' entry).mod_time, o', w')
    entry_time path o (err e, w) = (0, o, (c.file_size path w).1)

    abbrev pub time_of : Text → Option ℕ → ListOffset → W → ℕ × ListOffset × W
    time_of path (some mtime) o w = (mtime, o, w)
    time_of path none o w = entry_time path o (c.get_entry path w)

    abbrev pub wrap_download : Option Error × W → Option Error × W
    wrap_download (none, w) = (none, w)
    wrap_download (some e, w) = (some (wrap (codes "download") e), w)

    -- The deferred second Close of the response does nothing.
    abbrev pub after_retr : Text → ℕ → Answer Source × W → Option Error × W
    after_retr local_path mtime (err e, w) = (some (wrap (codes "download") e), w)
    after_retr local_path mtime (ok src, w) =
        wrap_download (write_local_atomic d c.finish_retr local_path src mtime w)

    -- What `download` does on its connection; the time is given by `DownloadKnown`.
    unfoldable pub download_on :
        Text → Text → Option ℕ → ListOffset → W → Option Error × ListOffset × W
    unfolding write_local_atomic detect_list_offset to_remote clean_message
    download_on path local_path known o w =
        let (mtime, o', w') = time_of path known o w in
        let (e, w2) = after_retr local_path mtime (c.retr path w') in (e, o', w2)
