-- ===== src/Transfer/Sftp/Fetch.antt =====
-- internal/transfer/sftp.go: downloads on a session.
pub mod Content
use sfync.Base.{ℕ, ◌+◌, Text, codes, Option, none, some, List, [], ◌∷◌, ◌++◌, Bool, true, false}
use sfync.Base.{leb, if◌then◌else◌}
use sfync.Base.Paths.{dir}
use sfync.Transfer.Client.{Error, clean_message}
use sfync.Transfer.Remote.{Answer, ok, err}
use sfync.Transfer.Atomic.{LocalDisk, Source, write_local_atomic}
use sfync.Transfer.Sftp.{Entry, Session, wrap}

module _ {W : Type 0} (s : Session W) where
  -- `downloadOn`: a small file is read at once, and what is missing at its end is no error.
  module _ (d : LocalDisk W) where
    abbrev pub wrap_download : Option Error × W → Option Error × W
    wrap_download (none, w) = (none, w)
    wrap_download (some e, w) = (some (wrap (codes "download") e), w)

    -- A nil `finish`.
    abbrev pub no_finish : W → Option Error × W
    no_finish w = (none, w)

    abbrev pub store : Text → ℕ → Source × W → Option Error × W
    store local_path mtime (src, w) =
        wrap_download (write_local_atomic d no_finish local_path src mtime w)

    abbrev pub store_small : Text → ℕ → Answer (List ℕ) × W → Option Error × W
    store_small local_path mtime (ok bytes, w) =
        store local_path mtime (record { bytes = bytes; failure = none }, w)
    store_small local_path mtime (err e, w) = (some (wrap (codes "download") e), w)

    abbrev pub after_open_read : ℕ → Text → Text → ℕ → ℕ → Option Error × W → Option Error × W
    after_open_read packet remote_path local_path size mtime (none, w) =
        if leb size packet
        then store_small local_path mtime (s.read_at remote_path size w)
        else store local_path mtime (s.read_all remote_path w)
    after_open_read packet remote_path local_path size mtime (some e, w) =
        (some (wrap (codes "download") e), w)

    unfoldable pub download_on : ℕ → Text → Text → ℕ → ℕ → W → Option Error × W
    unfolding write_local_atomic clean_message
    download_on packet remote_path local_path size mtime w =
        after_open_read packet remote_path local_path size mtime (s.open_read remote_path w)
