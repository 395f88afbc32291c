-- ===== src/Transfer/Ftp/Clock.antt =====
-- internal/transfer/ftp.go: the times of listings. Times and durations are nanoseconds. A listing may
-- be ahead of UTC or behind it, so an offset is an integer. The offset that is kept while listings
-- run is passed along.
pub mod Offset
use sfync.Base.{
  ℕ, zero, suc, ◌+◌, ◌-◌, ◌*◌, ◌%◌, Text, Option, none, some, List, [], Bool, true, false,
}
use sfync.Base.{ℤ, pos, negsuc, ◌&&◌, ◌||◌, not, leb, ltb, if◌then◌else◌, ◌==◌, nat_eq}
use sfync.Transfer.Types.{RemoteFileInfo, second}
use sfync.Transfer.Client.{Error}
use sfync.Transfer.Remote.{Answer, ok, err}
use sfync.Transfer.Ftp.{EntryType, entry_file, entry_folder, entry_link, FtpEntry, Connection}

abbrev pub minute : ℕ
minute = 60_000_000_000

abbrev pub hour : ℕ
hour = 3_600_000_000_000

-- The offset of a client's listings.
pub record ListOffset : Type 0 where
  pub list_offset : ℤ
  pub list_offset_known : Bool
  pub list_offset_tries : ℕ

-- As `Connect` sets it.
abbrev pub new_list_offset : ListOffset
new_list_offset = record { list_offset = pos 0; list_offset_known = false; list_offset_tries = 0 }

abbrev pub max_list_offset_tries : ℕ
max_list_offset_tries = 3

-- `listTimePrecision`
unfoldable pub list_time_precision : ℕ → Bool → ℕ → ℕ
list_time_precision t precise now =
    if precise then 0 else if ltb (150 * 24 * hour) (now - t) then 24 * hour else minute

-- `Round(15 * time.Minute)` of a duration that is not negative; halves are rounded up.
abbrev pub quarter : ℕ
quarter = 15 * minute

unfoldable pub round_quarter : ℕ → ℕ
round_quarter d = let r = d % quarter in if ltb (r + r) quarter then d - r else (d - r) + quarter

-- `-d`
abbrev pub minus : ℕ → ℤ
minus zero = pos 0
minus (suc d) = negsuc d

-- `listOffsetFrom`; none where it returns false. Halves are rounded away from zero.
unfoldable pub list_offset_from : ℕ → ℕ → Option ℤ
unfolding round_quarter
list_offset_from listed mdtm =
    let ahead = round_quarter (listed - mdtm) in
    let behind = round_quarter (mdtm - listed) in
    if leb mdtm listed
    then (if ltb (14 * hour) ahead then none else some (pos ahead))
    else (if ltb (14 * hour) behind then none else some (minus behind))

-- `t.Add(-offset)`
abbrev pub without_offset : ℤ → ℕ → ℕ
without_offset (pos d) t = t - d
without_offset (negsuc d) t = t + (d + 1)

abbrev pub is_file : EntryType → Bool
is_file entry_file = true
is_file entry_folder = false
is_file entry_link = false

abbrev pub is_folder : EntryType → Bool
is_folder entry_file = false
is_folder entry_folder = true
is_folder entry_link = false

module _ {W : Type 0} (c : Connection W) where
  -- `toRemote`, at the time `now`.
  unfoldable pub to_remote : ℕ → ListOffset → FtpEntry → RemoteFileInfo
  unfolding list_time_precision
  to_remote now o entry =
      let mtime =
        if c.time_precise_in_list then entry.time else without_offset o.list_offset entry.time in
      record {
        name = entry.name;
        path = [];
        size = entry.size;
        mod_time = mtime;
        is_dir = is_folder entry.entry_type;
        mode = 0;
        mod_time_precision = list_time_precision mtime c.time_precise_in_list now;
      }

  -- The end of `detectListOffset`.
  abbrev pub keep_offset : ListOffset → W → Option ℤ → Bool × ListOffset × W
  keep_offset o w none = (false, o, w)
  keep_offset o w (some offset) =
      (true, record o { list_offset = offset; list_offset_known = true }, w)

  abbrev pub after_get_time : FtpEntry → ListOffset → Answer ℕ × W → Bool × ListOffset × W
  after_get_time entry o (err e, w) = (false, o, w)
  after_get_time entry o (ok mdtm, w) = keep_offset o w (list_offset_from entry.time mdtm)

  -- Whether an entry is not a file that is listed to the minute, or enough were tried.
  abbrev pub tells_nothing : ℕ → ListOffset → FtpEntry → Bool
  tells_nothing now o entry =
      not (is_file entry.entry_type)
      || (leb max_list_offset_tries o.list_offset_tries
          || not (list_time_precision entry.time false (now + 14 * hour) == minute))

  -- `detectListOffset`, at the time `now`.
  unfoldable pub detect_list_offset : ℕ → Text → FtpEntry → ListOffset → W → Bool × ListOffset × W
  unfolding list_offset_from list_time_precision nat_eq
  detect_list_offset now remote_path entry o w =
      if o.list_offset_known
      then (true, o, w)
      else if c.time_precise_in_list || not c.get_time_supported
      then (true, record o { list_offset_known = true }, w)
      else if tells_nothing now o entry
      then (false, o, w)
      else after_get_time entry (record o { list_offset_tries = o.list_offset_tries + 1 })
          (c.get_time remote_path w)
