-- ===== src/Transfer/Sftp/Server.antt =====
-- internal/transfer/sftp.go: what is asked of an SFTP server, in the words of `Views`. It models no
-- code of its own.
use sfync.Base.{ℕ, ◌≡◌, ◌≢◌, Text, Option, none, some}
use sfync.Base.{List, [], Bool, if◌then◌else◌, nat_eq, length}
use sfync.Transfer.Remote.{Answer, ok, err}
use sfync.Transfer.Views.{View, Same, Renames, Removes, Makes, Closes, overwrite}
use sfync.Transfer.Sftp.{Entry, Session}

abbrev pub or_empty : Option (List ℕ) → List ℕ
or_empty none = []
or_empty (some c) = c

module _ {W : Type 0} (view : View W) where
  -- What `Stat` says of a file is true, and it changes nothing.
  abbrev pub Stats : Text → W → Answer Entry × W → Type 0
  Stats p w (ok info, w') =
      Same view w w' × ((c : List ℕ) × (view w p ≡ some c) × (length c ≡ info.size))
  Stats p w (err e, w') = Same view w w'

-- What is asked of a server that nobody else writes to: an operation touches the files it names,
-- it does what it says if it succeeds, and a rename or a removal that fails was done or was not.
pub record IsServer {W : Type 0} (s : Session W) (view : View W) : Type 0 where
  pub stat_law : (p : Text) (w : W) → Stats view p w (s.stat p w)
  pub open_law :
      (p : Text) (truncate : Bool) (w : W)
      → Makes view p (if truncate then [] else or_empty (view w p)) w (s.open_file p truncate w)
  pub seek_law : (n : ℕ) (w : W) → Same view w (s.seek_local n w).1
  pub copy_law :
      (p : Text) (n : ℕ) (bytes c : List ℕ) (w : W)
      → view w p ≡ some c
      → Makes view p (overwrite n bytes c) w (s.copy p n bytes w)
  pub close_law : (p : Text) (w : W) → Closes view p w (s.close p w)
  pub chmod_law : (p : Text) (mode : ℕ) (w : W) → Same view w (s.chmod p mode w).1
  pub chtimes_law : (p : Text) (time : ℕ) (w : W) → Same view w (s.chtimes p time w).1
  pub posix_rename_law : (p q : Text) → p ≢ q → (w : W) → Renames view p q w (s.posix_rename p q w)
  pub rename_law : (p q : Text) → p ≢ q → (w : W) → Renames view p q w (s.rename p q w)
  pub remove_law : (p : Text) (w : W) → Removes view p w (s.remove p w)
