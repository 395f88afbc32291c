-- ===== src/Transfer/Mirror/Diff.antt =====
-- internal/transfer/mirror.go: `diffTrees` and `isDifferent`. A Go map is a Dict, whose order is
-- the order in which `range` meets the keys.
pub mod Window
pub mod PerPath
use sfync.Base.{ℕ, min, ◌*◌, ◌+◌, ◌-◌, ◌%◌, ◌^◌, Text, Option, none, some, List, [], ◌∷◌, ◌++◌}
use sfync.Base.{Bool, true, false, not, ◌||◌, ltb, leb, if◌then◌else◌, is_some}
use sfync.Base.{◌==◌, nat_eq, text_eq}
use sfync.Base.Dict.{Dict, lookup}
use sfync.Transfer.Types.{FileInfo, RemoteFileInfo, MirrorEntry, MirrorAction}
use sfync.Transfer.Types.{action_upload, action_download, action_delete, action_delete_dir}
use sfync.Transfer.Types.{action_mkdir, action_skip, action_conflict, second}

-- The tolerance of a comparison of two times, in nanoseconds.
abbrev pub slack : ℕ
slack = 2 * second

-- `local.ModTime().Sub(remote.ModTime)`: an int64 of nanoseconds as sign and magnitude, kept
-- within the range of int64 by `Sub`. `before n` is -n with 0 < n.
pub data Duration : Type 0 where
  after : ℕ → Duration
  before : ℕ → Duration

unfoldable pub sub_time : ℕ → ℕ → Duration
sub_time a b = if ltb a b then before (min (b - a) (2 ^ 63)) else after (min (a - b) (2 ^ 63 - 1))

-- `x + y` on int64, for x and y that are not negative.
unfoldable pub add_int64 : ℕ → ℕ → Duration
add_int64 x y =
    let sum = (x + y) % 2 ^ 64 in if ltb sum (2 ^ 63) then after sum else before (2 ^ 64 - sum)

-- `x > y`
abbrev pub longer : Duration → Duration → Bool
longer (after x) (after y) = ltb y x
longer (after x) (before y) = true
longer (before x) (after y) = false
longer (before x) (before y) = ltb x y

unfoldable pub is_different : FileInfo → RemoteFileInfo → Bool
unfolding sub_time add_int64
is_different local remote =
    let diff = sub_time local.mod_time remote.mod_time in
    if not (local.size == remote.size)
    then true
    else longer (before slack) diff || longer diff (add_int64 remote.mod_time_precision slack)

-- `MirrorEntry{Action: a, RelPath: p}`
abbrev pub plain : MirrorAction → Text → MirrorEntry
plain a p = record {
  action = a;
  rel_path = p;
  local_info = none;
  remote_info = none;
  is_new = false;
}

-- The body of the loop over `local`, where local goes to remote.
unfoldable pub diff_local_up : Dict Text RemoteFileInfo → Text → FileInfo → List MirrorEntry
unfolding is_different lookup
diff_local_up remote p entry =
    if entry.is_dir
    then elim (lookup p remote) [
      | none ↦ plain action_mkdir p ∷ []
      | some r ↦ if not r.is_dir then plain action_conflict p ∷ [] else []
    ]
    else elim (lookup p remote) [
      | none ↦ record (plain action_upload p) { local_info = some entry; is_new = true } ∷ []
      | some r ↦
          if r.is_dir
          then plain action_conflict p ∷ []
          else if is_different entry r
          then record (plain action_upload p) { local_info = some entry; remote_info = some r } ∷ []
          else plain action_skip p ∷ []
    ]

-- The body of the loop over `remote`, where local goes to remote: what local lacks is deleted.
unfoldable pub diff_remote_up : Dict Text FileInfo → Text → RemoteFileInfo → List MirrorEntry
unfolding lookup
diff_remote_up local p r =
    if not (is_some (lookup p local))
    then (if r.is_dir then plain action_delete_dir p ∷ [] else plain action_delete p ∷ [])
    else []

-- The body of the loop over `remote`, where remote goes to local.
unfoldable pub diff_remote_down : Dict Text FileInfo → Text → RemoteFileInfo → List MirrorEntry
unfolding is_different lookup
diff_remote_down local p r =
    if r.is_dir
    then elim (lookup p local) [
      | none ↦ plain action_mkdir p ∷ []
      | some entry ↦ if not entry.is_dir then plain action_conflict p ∷ [] else []
    ]
    else elim (lookup p local) [
      | none ↦ record (plain action_download p) { remote_info = some r; is_new = true } ∷ []
      | some entry ↦
          if entry.is_dir
          then plain action_conflict p ∷ []
          else if is_different entry r
          then record (plain action_download p) { local_info = some entry; remote_info = some r }
            ∷ []
          else plain action_skip p ∷ []
    ]

-- The body of the loop over `local`, where remote goes to local.
unfoldable pub diff_local_down : Dict Text RemoteFileInfo → Text → FileInfo → List MirrorEntry
unfolding lookup
diff_local_down remote p entry =
    if not (is_some (lookup p remote))
    then (if entry.is_dir then plain action_delete_dir p ∷ [] else plain action_delete p ∷ [])
    else []

-- `for p, v := range m`, with the entries that each round appends.
unfoldable pub collect :
    {V : Type 0} → (Text → V → List MirrorEntry) → Dict Text V → List MirrorEntry
collect body [] = []
collect body ((p, v) ∷ m) = body p v ++ collect body m

unfoldable pub diff_trees : Dict Text FileInfo → Dict Text RemoteFileInfo → Bool → List MirrorEntry
unfolding collect diff_local_up diff_remote_up diff_remote_down diff_local_down
diff_trees local remote upload =
    if upload
    then collect (diff_local_up remote) local ++ collect (diff_remote_up local) remote
    else collect (diff_remote_down local) remote ++ collect (diff_local_down remote) local
