-- ===== src/Transfer/Atomic.antt =====
-- internal/transfer/atomic.go: the names of partial files, when one is continued, and
-- `writeLocalAtomic`. The local disk is a parameter.
pub mod Partial
pub mod Commit
use sfync.Base.{ℕ, ◌+◌, Text, codes, Option, none, some, List, [], ◌∷◌, ◌++◌, Bool, true, false}
use sfync.Base.{◌&&◌, not, leb, ltb, if◌then◌else◌, ◌==◌, nat_eq}
use sfync.Base.Paths.{split_last, dir, base}
use sfync.Transfer.Client.{Error}
use sfync.Transfer.Remote.{Answer, ok, err}

abbrev pub partial_suffix : Text
partial_suffix = codes ".sfync-part"

-- `remotePartialPath`
unfoldable pub remote_partial_path : Text → Text
unfolding split_last
remote_partial_path remote_path =
    let (at, name) = split_last remote_path in at ++ (codes "." ++ (name ++ partial_suffix))

-- A local file that is read: the bytes, the time and the mode of its FileInfo.
pub record LocalFile : Type 0 where
  pub content : List ℕ
  pub size : ℕ
  pub mod_time : ℕ
  pub mode : ℕ

-- `canResumePartial`
unfoldable pub can_resume_partial : ℕ → ℕ → LocalFile → Bool
can_resume_partial partial_size partial_mod_time f =
    ltb 0 partial_size && (leb partial_size f.size && not (ltb partial_mod_time f.mod_time))

-- `os.CreateTemp` in a directory with a pattern, `io.Copy` of a source into a file, `Close`,
-- `os.Lstat` (the permission bits of a regular file), `os.Chmod`, `os.Chtimes`, `os.Rename` and
-- `os.Remove`.
pub record LocalDisk (W : Type 0) : Type 0 where
  pub create_temp : Text → Text → W → Answer Text × W
  pub write_bytes : Text → List ℕ → W → Option Error × W
  pub close : Text → W → Option Error × W
  pub regular_mode : Text → W → Option ℕ
  pub chmod : Text → ℕ → W → Option Error × W
  pub chtimes : Text → ℕ → W → Option Error × W
  pub rename : Text → Text → W → Option Error × W
  pub remove : Text → W → Option Error × W

-- What a reader yields until it ends: bytes, and an error where it fails.
pub record Source : Type 0 where
  pub bytes : List ℕ
  pub failure : Option Error

abbrev pub mode_or_default : Option ℕ → ℕ
mode_or_default none = 420
mode_or_default (some mode) = mode

-- The first error.
abbrev pub first : Option Error → Option Error → Option Error
first none e = e
first (some e) _ = some e

module _ {W : Type 0} (d : LocalDisk W) (finish : W → Option Error × W) where
  -- The deferred removal of the temporary file.
  abbrev pub give_up : Text → Error → W → Option Error × W
  give_up temp e w = (some e, (d.remove temp w).1)

  abbrev pub after_rename : Text → Option Error × W → Option Error × W
  after_rename temp (none, w) = (none, w)
  after_rename temp (some e, w) = give_up temp e w

  -- The times and the rename; a time that cannot be set is only a warning.
  abbrev pub after_chmod : Text → Text → ℕ → Option Error × W → Option Error × W
  after_chmod temp dst mtime (none, w) =
      let timed = if mtime == 0 then w else (d.chtimes temp mtime w).1 in
      after_rename temp (d.rename temp dst timed)
  after_chmod temp dst mtime (some e, w) = give_up temp e w

  abbrev pub after_write : Text → Text → ℕ → Option Error → W → Option Error × W
  after_write temp dst mtime none w =
      after_chmod temp dst mtime (d.chmod temp (mode_or_default (d.regular_mode dst w)) w)
  after_write temp dst mtime (some e) w = give_up temp e w

  -- `finish` and `Close` are called whether or not the copy failed; the first error stands.
  abbrev pub after_copy : Text → Text → ℕ → Option Error × W → Option Error × W
  after_copy temp dst mtime (copied, w) =
      let (finished, w1) = finish w in
      let (closed, w2) = d.close temp w1 in
      after_write temp dst mtime (first (first copied finished) closed) w2

  -- `io.Copy`: what the source yields is written, and then its own error shows.
  abbrev pub copy_in : Text → Source → W → Option Error × W
  copy_in temp src w =
      let (written, w') = d.write_bytes temp src.bytes w in (first written src.failure, w')

  abbrev pub after_create : Text → Source → ℕ → Answer Text × W → Option Error × W
  after_create dst src mtime (err e, w) = (some e, (finish w).1)
  after_create dst src mtime (ok temp, w) = after_copy temp dst mtime (copy_in temp src w)

  -- `writeLocalAtomic`, less the count of bytes. A time of 0 is Go's zero time.
  unfoldable pub write_local_atomic : Text → Source → ℕ → W → Option Error × W
  unfolding dir base
  write_local_atomic dst src mtime w =
      after_create dst src mtime
        (d.create_temp (dir dst) (codes "." ++ (base dst ++ (codes ".*" ++ partial_suffix))) w)
