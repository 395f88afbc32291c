-- ===== src/Transfer/Mirror/Diff/Window.antt =====
-- When `isDifferent` of internal/transfer/mirror.go takes two files for the same.
use sfync.Base.{◌+◌, ◌-◌, ◌≤◌, ◌<◌, ◌^◌, ◌≡◌, ◌↔◌, false, arith}
use sfync.Base.{nat_eq}
use sfync.Transfer.Types.{FileInfo, RemoteFileInfo}
use sfync.Transfer.Mirror.Diff.{is_different, slack}

-- A local file counts as unchanged exactly when the sizes agree and the local time lies in the
-- window from `slack` before the remote time to `slack` after the end of the remote time's
-- precision. The precision plus the slack must stay below the largest int64.
pub is_different_window :
    (l : FileInfo) (r : RemoteFileInfo)
    → r.mod_time_precision + slack < 2 ^ 63 - 1
    → (is_different l r ≡ false) ↔ (
        (l.size ≡ r.size)
        × (r.mod_time ≤ l.mod_time + slack)
        × (l.mod_time ≤ r.mod_time + r.mod_time_precision + slack))
unfolding is_different
is_different_window l r h = (λ e. ground arith, λ e. ground arith)
