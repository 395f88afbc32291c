-- ===== src/Transfer/Ftp/Clock/Offset.antt =====
-- internal/transfer/ftp.go: the offset that `detectListOffset` finds, and the times that it corrects.
use sfync.Base.{ℕ, zero, suc, ◌+◌, ◌-◌, ◌*◌, ◌%◌, ◌≡◌, ap, ◌∙◌, Text, some, Bool, true, false}
use sfync.Base.{ℤ, pos, ◌||◌, not, leb, ltb, if◌then◌else◌, nat_eq, arith}
use sfync.Transfer.Remote.{ok}
use sfync.Transfer.Ftp.{FtpEntry, Connection}
use sfync.Transfer.Ftp.Clock.{
  minute, hour, quarter, round_quarter, minus, list_offset_from, without_offset, ListOffset,
  to_remote, keep_offset, after_get_time, tells_nothing, detect_list_offset,
}

-- A time zone, so many quarters of an hour east or west of UTC.
abbrev pub zone : Bool → ℕ → ℤ
zone true q = pos (q * quarter)
zone false q = minus (q * quarter)

-- What a listing shows for a time: the local time, without the seconds.
abbrev pub listed_in : Bool → ℕ → ℕ → ℕ
listed_in true q t = (t + q * quarter) - (t + q * quarter) % minute
listed_in false q t = (t - q * quarter) - (t - q * quarter) % minute

round_up : (q r : ℕ) → ltb r minute ≡ true → round_quarter (q * quarter + r) ≡ q * quarter
unfolding round_quarter
round_up q r small = ground (arith)

round_down :
    (q r : ℕ)
    → ltb r minute ≡ true
    → leb r (q * quarter) ≡ true
    → round_quarter (q * quarter - r) ≡ q * quarter
unfolding round_quarter
round_down q r small fits = ground (arith)

-- The difference of a listed time and the time is the offset, less the seconds.
list_offset_from_east :
    (q t : ℕ) → leb q 56 ≡ true → list_offset_from (listed_in true q t) t ≡ some (zone true q)
unfolding list_offset_from round_quarter
list_offset_from_east q t range = ground (arith)

list_offset_from_west :
    (q t : ℕ)
    → leb q 56 ≡ true
    → leb (14 * hour) t ≡ true
    → list_offset_from (listed_in false q t) t ≡ some (zone false q)
unfolding list_offset_from round_quarter
list_offset_from_west zero t range late = ground (arith)
list_offset_from_west (suc q) t range late = ground (arith)

corrected :
    (east : Bool) (q t : ℕ)
    → leb q 56 ≡ true
    → leb (14 * hour) t ≡ true
    → without_offset (zone east q) (listed_in east q t) ≡ t - t % minute
corrected true q t range late = ground (arith)
corrected false zero t range late = ground (arith)
corrected false (suc q) t range late = ground (arith)

list_offset_from-zone :
    (east : Bool) (q t : ℕ)
    → leb q 56 ≡ true
    → leb (14 * hour) t ≡ true
    → list_offset_from (listed_in east q t) t ≡ some (zone east q)
list_offset_from-zone true q t range late = list_offset_from_east q t range
list_offset_from-zone false q t range late = list_offset_from_west q t range late

-- The tests of `detectListOffset`, passed.
passes :
    {A : Type 0} (known precise may nothing : Bool) (a b c d : A)
    → known ≡ false
    → precise ≡ false
    → may ≡ true
    → nothing ≡ false
    → (if known then a else if precise || not may then b else if nothing then c else d) ≡ d
passes known precise may nothing a b c d h1 h2 h3 h4 = ground (arith)

module _ {W : Type 0} (c : Connection W) (plain : c.time_precise_in_list ≡ false) where
  -- If the server lists times in a zone within 14 hours of UTC, and a file that is listed to the
  -- minute is looked up successfully, then the offset of that zone is found, and every time that the
  -- server lists to the minute in that zone is from then on taken for the true time less its
  -- seconds.
  pub detect_list_offset-to_remote :
      (now then_now : ℕ) (remote_path : Text) (entry other : FtpEntry) (o : ListOffset) (w w' : W)
      (east : Bool) (q t u : ℕ)
      → leb q 56 ≡ true
      → leb (14 * hour) t ≡ true
      → leb (14 * hour) u ≡ true
      → o.list_offset_known ≡ false
      → c.get_time_supported ≡ true
      → tells_nothing c now o entry ≡ false
      → entry.time ≡ listed_in east q t
      → c.get_time remote_path w ≡ (ok t, w')
      → other.time ≡ listed_in east q u
      → ((detect_list_offset c now remote_path entry o w).0 ≡ true)
        × ((to_remote c then_now (detect_list_offset c now remote_path entry o w).1 other).mod_time
            ≡ u - u % minute)
  unfolding detect_list_offset to_remote
  detect_list_offset-to_remote now then_now remote_path entry other o w w' east q t u range late
        late' unknown may tells shown told shown' =
      let tried = record o { list_offset_tries = o.list_offset_tries + 1 } in
      let found : detect_list_offset c now remote_path entry o w
          ≡ (true, record tried { list_offset = zone east q; list_offset_known = true }, w') =
        passes o.list_offset_known c.time_precise_in_list c.get_time_supported
          (tells_nothing c now o entry) (true, o, w)
          (true, record o { list_offset_known = true }, w) (false, o, w)
          (after_get_time c entry tried (c.get_time remote_path w)) unknown plain may tells
        ∙ ap (λ r. after_get_time c entry tried r) told
        ∙ ap (λ l. keep_offset c tried w' (list_offset_from l t)) shown
        ∙ ap (λ l. keep_offset c tried w' l) (list_offset_from-zone east q t range late) in
      (
        ap (λ r. r.0) found,
        ap (λ r. (to_remote c then_now r.1 other).mod_time) found
            ∙ ap (λ b. if b then other.time else without_offset (zone east q) other.time) plain
            ∙ ap (λ l. without_offset (zone east q) l) shown'
            ∙ corrected east q u range late',
      )
