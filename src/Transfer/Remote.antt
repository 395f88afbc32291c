-- ===== src/Transfer/Remote.antt =====
-- The interface RemoteClient of internal/transfer/client.go, and what the mirror asks of the local
-- disk, over an unknown state of the world. An error is an Option, none for nil.
use sfync.Base.{ℕ, Text, Option, List, Bool}
use sfync.Transfer.Types.{FileInfo, RemoteFileInfo}
use sfync.Ignore.{IgnoreFile}
use sfync.Transfer.Client.{Error}

-- A value, or an error.
pub data Answer (A : Type 0) : Type 0 where
  ok : A → Answer A
  err : Error → Answer A

-- `supports_concurrent` and `download_known` are the optional interfaces concurrentClient and
-- knownDownloader.
pub record RemoteClient (W : Type 0) : Type 0 where
  pub connect : W → Option Error × W
  pub close : W → W
  pub is_alive : W → Bool × W
  pub stat : Text → W → Answer RemoteFileInfo × W
  pub read_dir : Text → W → Answer (List RemoteFileInfo) × W
  pub upload : Text → Text → W → Option Error × W
  pub upload_resume : Text → Text → W → Option Error × W
  pub download : Text → Text → W → Option Error × W
  pub mkdir : Text → W → Option Error × W
  pub mkdir_all : Text → W → Option Error × W
  pub remove : Text → W → Option Error × W
  pub remove_dir : Text → W → Option Error × W
  pub supports_concurrent : Bool
  pub download_known : Option (Text → Text → ℕ → ℕ → W → Option Error × W)

mutual
  -- A name in a local directory. The FileInfo is none where `d.Info()` fails.
  pub data LocalNode : Type 0 where
    symlink : Text → LocalNode
    file : Text → Option FileInfo → LocalNode
    folder : Text → Option FileInfo → Listing → LocalNode

  -- What `os.ReadDir` answers for a directory, in lexical order.
  pub data Listing : Type 0 where
    unlisted : Listing
    listing_end : Listing
    listed : LocalNode → Listing → Listing

-- What `os.Lstat` answers for the root of a walk.
pub data LocalRoot : Type 0 where
  no_access : LocalRoot
  root_symlink root_file : LocalRoot
  root_folder : Listing → LocalRoot

-- `os.MkdirAll` and `os.Remove`; the files under a path as `filepath.WalkDir` finds them; the
-- .syncignore file in a directory, and the error of reading it.
pub record Disk (W : Type 0) : Type 0 where
  pub make_dirs : Text → W → Option Error × W
  pub remove_path : Text → W → Option Error × W
  pub tree : Text → W → LocalRoot
  pub ignore_file : Text → W → IgnoreFile
  pub ignore_error : Text → W → Error
