-- ===== src/Transfer/Types.antt =====
-- The data of internal/transfer/client.go. Times and durations are nanoseconds; a time counts from
-- Go's zero time, which is 0. Sizes are not negative.
use sfync.Base.{ℕ, ◌^◌, Text, Option, Bool}

-- What the mirror reads of an `os.FileInfo`.
pub record FileInfo : Type 0 where
  pub size : ℕ
  pub mod_time : ℕ
  pub is_dir : Bool

pub record RemoteFileInfo : Type 0 where
  pub name : Text
  pub path : Text
  pub size : ℕ
  pub mod_time : ℕ
  pub is_dir : Bool
  pub mode : ℕ
  pub mod_time_precision : ℕ

pub data MirrorAction : Type 0 where
  action_upload action_download action_delete action_delete_dir : MirrorAction
  action_mkdir action_skip action_conflict : MirrorAction

pub record MirrorEntry : Type 0 where
  pub action : MirrorAction
  pub rel_path : Text
  pub local_info : Option FileInfo
  pub remote_info : Option RemoteFileInfo
  pub is_new : Bool

abbrev pub second : ℕ
second = 1_000_000_000

abbrev pub max_duration : ℕ
max_duration = 2 ^ 63
