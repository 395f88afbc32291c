-- ===== src/Transfer/Tests.antt =====
-- Transfers at concrete files: internal/transfer/sftp.go and internal/transfer/atomic.go.
use sfync.Base.{
  ℕ, ◌≡◌, refl, ap, Text, codes, none, some, List, [], ◌∷◌, Bool, true, false, length, nat_eq,
  text_eq, take, ap, ◌&&◌, ◌==◌, if◌then◌else◌, subst,
}
use sfync.Base.Paths.{split}
use sfync.Transfer.Client.{Error, library}
use sfync.Transfer.Remote.{Answer, ok, err}
use sfync.Transfer.Atomic.{LocalFile, Source, remote_partial_path, write_local_atomic}
use sfync.Transfer.Atomic.Commit.{Committed, write_local_atomic-Committed}
use sfync.Transfer.Sftp.{Entry, Session, upload_on}
use sfync.Transfer.Sftp.Server.{or_empty}
use sfync.Transfer.Sftp.Upload.{Delivers, upload_on-Outcome}
use sfync.Transfer.Sftp.Dirs.{mkdir_all}
use sfync.Transfer.Sftp.Dirs.Names.{ancestors}
use sfync.Transfer.Sftp.Fetch.{download_on}
use sfync.Transfer.Sftp.Fetch.Content.{Fetched, download_on-Fetched, download_on-upload_on}
use sfync.Transfer.Store.{
  World, set, remote, local, session, session-IsServer, session-IsReader, disk, disk-IsDisk,
}

abbrev target : Text
target = codes "/w/a"

abbrev five : LocalFile
five = record { content = 1 ∷ 2 ∷ 3 ∷ 4 ∷ 5 ∷ []; size = 5; mod_time = 7; mode = 420 }

-- On the server an older file, and two bytes of an upload that was broken off.
abbrev start : World
start = (
  (λ p.
      set target (some (9 ∷ [])) (set (codes "/w/.a.sfync-part") (some (1 ∷ 2 ∷ [])) (λ _. none))
        p),
  (λ p. set (codes "/l/a") (some (8 ∷ [])) (λ _. none) p),
)

abbrev uploaded : World
uploaded = (upload_on session (codes "resume") five target true start).1

abbrev back : World
back = (download_on session disk 3 target (codes "/l/a") 5 9 uploaded).1

upload_on-Outcome_example :
    Delivers session remote session-IsServer five target true start
      (upload_on session (codes "resume") five target true start)
upload_on-Outcome_example =
    upload_on-Outcome session remote session-IsServer (codes "resume") five target true start

uploaded_test : upload_on session (codes "resume") five target true start ≡ (none, uploaded)
unfolding upload_on text_eq nat_eq
uploaded_test = refl

uploaded_content : remote uploaded target ≡ some (1 ∷ 2 ∷ 3 ∷ 4 ∷ 5 ∷ [])
unfolding upload_on text_eq nat_eq
uploaded_content = refl

back_test : download_on session disk 3 target (codes "/l/a") 5 9 uploaded ≡ (none, back)
unfolding download_on upload_on text_eq nat_eq
back_test = refl

-- The broken upload had sent the start of the file.
left-IsStart :
    (old : List ℕ)
    → remote start (remote_partial_path target) ≡ some old
    → true ≡ true
    → old ≡ take (length old) five.content
unfolding remote_partial_path text_eq nat_eq
left-IsStart old found _ =
    let e : 1 ∷ 2 ∷ [] ≡ old = ap or_empty found in
    subst (λ l. l ≡ take (length l) five.content) e refl

download_on-upload_on_example : local back (codes "/l/a") ≡ some (1 ∷ 2 ∷ 3 ∷ 4 ∷ 5 ∷ [])
download_on-upload_on_example =
    download_on-upload_on session disk remote local session-IsReader disk-IsDisk session-IsServer
      (codes "resume") five target (codes "/l/a") true 3 9 start uploaded back left-IsStart
      uploaded_test back_test

target_content : remote start target ≡ some (9 ∷ [])
unfolding text_eq nat_eq
target_content = refl

download_on-Fetched_example :
    Fetched session disk remote local session-IsReader disk-IsDisk
      (codes "/l/a")
      (9 ∷ [])
      start
      (download_on session disk 3 target (codes "/l/a") 1 9 start)
download_on-Fetched_example =
    download_on-Fetched session disk remote local session-IsReader disk-IsDisk 3 target
      (codes "/l/a") 1 9 (9 ∷ []) start target_content

abbrev broken : Source
broken = record {
  bytes = 4 ∷ [];
  failure = some (
      library (record { text = codes "reset"; not_exist = false; deadline = false; reply = none }));
}

write_local_atomic-Committed_example :
    Committed disk local disk-IsDisk
      (λ w. (none, w))
      (λ w q. refl)
      (codes "/l/a")
      broken
      start
      (write_local_atomic disk (λ w. (none, w)) (codes "/l/a") broken 9 start)
write_local_atomic-Committed_example =
    write_local_atomic-Committed disk local disk-IsDisk (λ w. (none, w)) (λ w q. refl)
      (codes "/l/a") broken 9 start

-- Directories: which paths are there.
abbrev Tree : Type 0
Tree = Text → Bool

abbrev There : Tree → Text → Type 0
There t p = t p ≡ true

abbrev all_there : Tree → List Text → Bool
all_there t [] = true
all_there t (p ∷ ps) = t p && all_there t ps

abbrev no_file : Error
no_file =
    library
      (record { text = codes "no such file"; not_exist = true; deadline = false; reply = none })

abbrev find : Text → Tree → Bool → Answer Entry × Tree
find p t true = (
  ok (record {
    name = p;
    size = 0;
    mod_time = 0;
    is_dir = all_there t (ancestors (split p) []);
    is_symlink = false;
    mode = 493;
  }),
  t,
)
find p t false = (err no_file, t)

abbrev add : Text → Tree → Tree
add p t q = if q == p then true else t q

abbrev tree : Session Tree
tree = record {
  stat = λ p t. find p t (t p);
  read_dir = λ p t. (ok [], t);
  open_file = λ p truncate t. (some no_file, t);
  seek_local = λ n t. (none, t);
  copy = λ p n bytes t. (some no_file, t);
  close = λ p t. (none, t);
  chmod = λ p mode t. (none, t);
  chtimes = λ p time t. (none, t);
  posix_rename_extension = false;
  posix_rename = λ p q t. (some no_file, t);
  rename = λ p q t. (some no_file, t);
  remove = λ p t. (some no_file, t);
  mkdir = λ p t. (none, add p t);
  remove_directory = λ p t. (some no_file, t);
  open_read = λ p t. (some no_file, t);
  read_at = λ p n t. (err no_file, t);
  read_all = λ p t. (record { bytes = []; failure = none }, t);
}

abbrev bare : Tree
bare p = p == codes "/a"

abbrev three_names : List Text
three_names = codes "a" ∷ codes "b" ∷ codes "c" ∷ []

mkdir_all_test : (mkdir_all tree (codes "/a/b/c") bare).1 (codes "/a/b") ≡ true
unfolding mkdir_all text_eq nat_eq
mkdir_all_test = refl
