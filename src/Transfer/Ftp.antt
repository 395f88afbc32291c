-- ===== src/Transfer/Ftp.antt =====
-- internal/transfer/ftp.go: uploads over one FTP connection, and the connections they lease. A
-- connection of package ftp, and the pool of connections, are parameters.
pub mod Upload
pub mod Delivery
pub mod Clock
pub mod Dirs
pub mod Fetch
pub mod Tests
use sfync.Base.{ℕ, Text, codes, Option, none, some, List, [], ◌∷◌, ◌++◌, Bool, true, false}
use sfync.Base.{◌||◌, not, ltb, if◌then◌else◌, ◌==◌, nat_eq, drop}
use sfync.Transfer.Client.{LibraryError, Error, cause, clean_message, wrap_new, transfer_timeout}
use sfync.Transfer.Remote.{Answer, ok, err}
use sfync.Transfer.Atomic.{LocalFile, Source, remote_partial_path, can_resume_partial}

-- `ftp.EntryType` and `ftp.Entry`.
pub data EntryType : Type 0 where
  entry_file entry_folder entry_link : EntryType

pub record FtpEntry : Type 0 where
  pub name : Text
  pub entry_type : EntryType
  pub size : ℕ
  pub time : ℕ

-- `*ftpSession`. `seek_local` is a Seek in the local file; `stor_from` writes bytes behind an
-- offset; `finish_retr` is Close of a response. `path_error` says that an error is a *fs.PathError.
pub record Connection (W : Type 0) : Type 0 where
  pub path_error : LibraryError → Bool
  pub time_precise_in_list : Bool
  pub get_time_supported : Bool
  pub set_time_supported : Bool
  pub get_entry : Text → W → Answer FtpEntry × W
  pub list : Text → W → Answer (List FtpEntry) × W
  pub file_size : Text → W → Answer ℕ × W
  pub get_time : Text → W → Answer ℕ × W
  pub set_time : Text → ℕ → W → Option Error × W
  pub seek_local : ℕ → W → Option Error × W
  pub stor : Text → List ℕ → W → Option Error × W
  pub stor_from : Text → ℕ → List ℕ → W → Option Error × W
  pub retr : Text → W → Answer Source × W
  pub finish_retr : W → Option Error × W
  pub rename : Text → Text → W → Option Error × W
  pub delete : Text → W → Option Error × W
  pub make_dir : Text → W → Option Error × W
  pub remove_dir : Text → W → Option Error × W
  pub current_dir : W → Answer Text × W
  pub change_dir : Text → W → Option Error × W

-- An error; `lost` is one that has errBrokenSession in its chain.
pub data SessionError : Type 0 where
  reported lost : Error → SessionError

-- What the caller of an operation gets.
unfoldable pub error_of : SessionError → Error
error_of (reported e) = e
error_of (lost e) = e

abbrev pub by_reply : Bool → Option ℕ → Bool
by_reply path_error none = not path_error
by_reply path_error (some code) = code == 421

-- `sessionBroken`
unfoldable pub session_broken : (LibraryError → Bool) → Option SessionError → Bool
unfolding cause nat_eq
session_broken path_error none = false
session_broken path_error (some (lost e)) = true
session_broken path_error (some (reported e)) = by_reply (path_error (cause e)) (cause e).reply

-- `wrapError` of an error that is not nil.
abbrev pub wrap : Text → Error → Error
wrap op e = wrap_new op e (clean_message e)

-- `connPool.acquire`, `begin`, `end` and `connPool.release`, which are steps of other goroutines too.
pub record Leases (C W : Type 0) : Type 0 where
  pub closed : W → Bool
  pub acquire : W → Answer C × W
  pub begin : C → ℕ → W → W
  pub finish : C → W → W
  pub release : C → Bool → W → W

module _ {C W : Type 0} (l : Leases C W) (path_error : LibraryError → Bool)
    (pool_closed : Error) where
  abbrev pub after_acquire :
      Text → ℕ → (C → W → Option SessionError × W) → Answer C × W → Option SessionError × W
  after_acquire op timeout fn (err e, w) = (some (reported (wrap op e)), w)
  after_acquire op timeout fn (ok conn, w) =
      let (e, w') = fn conn (l.begin conn timeout w) in
      (e, l.release conn (session_broken path_error e) (l.finish conn w'))

  -- `withConn`
  unfoldable pub with_conn :
      Text → ℕ → (C → W → Option SessionError × W) → W → Option SessionError × W
  unfolding session_broken clean_message
  with_conn op timeout fn w =
      if l.closed w
      then (some (reported (wrap op pool_closed)), w)
      else after_acquire op timeout fn (l.acquire w)

module _ {W : Type 0} (c : Connection W) where
  abbrev pub broken : Error → Bool
  broken e = session_broken c.path_error (some (reported e))

  abbrev pub after_rename : Text → Text → Option Error × W → Option Error × W
  after_rename src dst (none, w) = (none, w)
  after_rename src dst (some e, w) =
      if broken e then (some e, w) else c.rename src dst (c.delete dst w).1

  -- `ftpReplace`
  unfoldable pub ftp_replace : Text → Text → W → Option Error × W
  unfolding session_broken
  ftp_replace src dst w = after_rename src dst (c.rename src dst w)

  -- The offset from which `upload` continues a partial file.
  abbrev pub with_time : LocalFile → ℕ → Answer ℕ → ℕ
  with_time local size (ok mtime) = if can_resume_partial size mtime local then size else 0
  with_time local size (err e) = 0

  abbrev pub with_size : Text → LocalFile → Answer ℕ × W → ℕ × W
  with_size partial local (ok size, w) =
      let (answer, w') = c.get_time partial w in (with_time local size answer, w')
  with_size partial local (err e, w) = (0, w)

  unfoldable pub resume_offset : Bool → Text → LocalFile → W → ℕ × W
  unfolding can_resume_partial
  resume_offset false partial local w = (0, w)
  resume_offset true partial local w = with_size partial local (c.file_size partial w)

  module _ (op : Text) (resume : Bool) (local : LocalFile) (partial remote_path : Text) where
    abbrev pub after_swap : Option Error × W → Option Error × W
    after_swap (none, w) = (none, w)
    after_swap (some e, w) = (some (wrap op e), if broken e then w else (c.delete partial w).1)

    -- The time of the partial file; that it cannot be set is only a warning.
    abbrev pub timed : W → W
    timed w = if c.set_time_supported then (c.set_time partial local.mod_time w).1 else w

    abbrev pub after_stor : Option Error × W → Option Error × W
    after_stor (none, w) = after_swap (ftp_replace partial remote_path (timed w))
    after_stor (some e, w) =
        (some (wrap op e), if resume || broken e then w else (c.delete partial w).1)

    abbrev pub after_seek : Option Error × W → Option Error × W
    after_seek (none, w) = after_stor (c.stor partial local.content w)
    after_seek (some e, w) = after_stor (some e, w)

    abbrev pub send_all : W → Option Error × W
    send_all w = after_seek (c.seek_local 0 w)

    -- A partial file that cannot be continued is sent anew.
    abbrev pub after_rest : Option Error × W → Option Error × W
    after_rest (none, w) = after_stor (none, w)
    after_rest (some e, w) = if broken e then (some (wrap op e), w) else send_all w

    abbrev pub send_rest : ℕ → Option Error × W → Option Error × W
    send_rest offset (none, w) =
        after_rest (c.stor_from partial offset (drop offset local.content) w)
    send_rest offset (some e, w) = after_rest (some e, w)

    abbrev pub upload_from : ℕ × W → Option Error × W
    upload_from (offset, w) =
        if ltb 0 offset then send_rest offset (c.seek_local offset w) else send_all w

  -- What `upload` does on its connection, with the local file open.
  unfoldable pub upload_on : Text → LocalFile → Text → Bool → W → Option Error × W
  unfolding ftp_replace resume_offset remote_partial_path clean_message
  upload_on op local remote_path resume w =
      let partial = remote_partial_path remote_path in
      upload_from op resume local partial remote_path (resume_offset resume partial local w)

abbrev pub report : {W : Type 0} → Option Error × W → Option SessionError × W
report (none, w) = (none, w)
report (some e, w) = (some (reported e), w)

module _ {C W : Type 0} (l : Leases C W) (path_error : LibraryError → Bool) (pool_closed : Error)
    (connection : C → Connection W) where
  abbrev pub opened : Text → Text → Bool → Answer LocalFile → W → Option SessionError × W
  opened op remote_path resume (err e) w = (some (reported (wrap op e)), w)
  opened op remote_path resume (ok local) w =
      with_conn l path_error pool_closed op (transfer_timeout local.size)
        (λ conn w'. report (upload_on (connection conn) op local remote_path resume w')) w

  -- `upload`, with the local file or the error of opening it.
  unfoldable pub upload : Text → Bool → Answer LocalFile → W → Option SessionError × W
  unfolding with_conn upload_on transfer_timeout clean_message
  upload remote_path resume local w =
      opened (if resume then codes "resume" else codes "upload") remote_path resume local w
