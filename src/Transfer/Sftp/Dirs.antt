-- ===== src/Transfer/Sftp/Dirs.antt =====
-- internal/transfer/sftp.go: directories, and the operations that are one request each.
pub mod Names
pub mod Walk
use sfync.Base.{ℕ, Text, codes, Option, none, some, List, [], ◌∷◌, ◌++◌, Bool, true, false}
use sfync.Base.{if◌then◌else◌, ◌==◌, nat_eq, text_eq}
use sfync.Base.Paths.{split}
use sfync.Transfer.Types.{RemoteFileInfo}
use sfync.Transfer.Client.{Error, clean_message}
use sfync.Transfer.Remote.{Answer, ok, err}
use sfync.Transfer.Sftp.{Entry, Session, wrap, file_info_to_remote}

-- The path of the next component behind the current one.
unfoldable pub join_component : Text → Text → Text
unfolding text_eq nat_eq
join_component current component =
    if current == codes "/" then codes "/" ++ component else current ++ (codes "/" ++ component)

abbrev pub wrapped : {W : Type 0} → Text → Option Error × W → Option Error × W
wrapped op (none, w) = (none, w)
wrapped op (some e, w) = (some (wrap op e), w)

module _ {W : Type 0} (s : Session W) where
  abbrev pub stat_answer : Answer Entry × W → Answer RemoteFileInfo × W
  stat_answer (ok info, w) = (ok (file_info_to_remote info []), w)
  stat_answer (err e, w) = (err (wrap (codes "stat") e), w)

  -- `Stat`
  unfoldable pub stat : Text → W → Answer RemoteFileInfo × W
  unfolding file_info_to_remote clean_message
  stat remote_path w = stat_answer (s.stat remote_path w)

  -- `Mkdir`
  unfoldable pub mkdir : Text → W → Option Error × W
  unfolding clean_message
  mkdir remote_path w = wrapped (codes "mkdir") (s.mkdir remote_path w)

  -- `Remove`
  unfoldable pub remove : Text → W → Option Error × W
  unfolding clean_message
  remove remote_path w = wrapped (codes "remove") (s.remove remote_path w)

  -- `RemoveDir`
  unfoldable pub remove_dir : Text → W → Option Error × W
  unfolding clean_message
  remove_dir remote_path w = wrapped (codes "rmdir") (s.remove_directory remote_path w)

  -- `Chmod`
  unfoldable pub chmod : Text → ℕ → W → Option Error × W
  unfolding clean_message
  chmod remote_path mode w = wrapped (codes "chmod") (s.chmod remote_path mode w)

  -- One component of `MkdirAll`: behind the second `Stat`, behind `Mkdir`, behind the first `Stat`.
  abbrev pub after_race : Error → Answer Entry × W → Option Error × W
  after_race e (ok _, w) = (none, w)
  after_race e (err _, w) = (some (wrap (codes "mkdir") e), w)

  abbrev pub after_mkdir : Text → Option Error × W → Option Error × W
  after_mkdir current (none, w) = (none, w)
  after_mkdir current (some e, w) = after_race e (s.stat current w)

  abbrev pub after_stat : Text → Answer Entry × W → Option Error × W
  after_stat current (ok _, w) = (none, w)
  after_stat current (err _, w) = after_mkdir current (s.mkdir current w)

  -- The rest of the loop, unless it is left with an error.
  abbrev pub unless_left : (W → Option Error × W) → Option Error × W → Option Error × W
  unless_left rest (none, w) = rest w
  unless_left rest (some e, w) = (some e, w)

  -- The loop of `MkdirAll`, from the current path.
  unfoldable pub walk : List Text → Text → W → Option Error × W
  unfolding join_component clean_message
  walk [] current w = (none, w)
  walk ([] ∷ rest) current w = walk rest (codes "/") w
  walk ((c ∷ cs) ∷ rest) current w =
      let next = join_component current (c ∷ cs) in
      unless_left (walk rest next) (after_stat next (s.stat next w))

  abbrev pub after_fast : Text → Answer Entry × W → Option Error × W
  after_fast remote_path (ok info, w) =
      if info.is_dir then (none, w) else walk (split remote_path) [] w
  after_fast remote_path (err e, w) = walk (split remote_path) [] w

  -- `MkdirAll`
  unfoldable pub mkdir_all : Text → W → Option Error × W
  unfolding split walk
  mkdir_all remote_path w = after_fast remote_path (s.stat remote_path w)
