-- ===== src/Transfer/Mirror/Sync/Returns.antt =====
-- internal/transfer/mirror.go, `MirrorUp` and `MirrorDown`: they return, with enough fuel.
use sfync.Base.{ℕ, ◌<◌, Text, Bool}
use sfync.Base.Dict.{Dict}
use sfync.Config.{Profile}
use sfync.Ignore.{Matcher}
use sfync.Transfer.Remote.{RemoteClient, Disk}
use sfync.Transfer.Mirror.Order.{SliceSort}
use sfync.Transfer.Mirror.Scan.Slots.{Sizes}

module _ {W : Type 0} (S : SliceSort) (glob : Matcher) (c : RemoteClient W) (disk : Disk W) where
  module _ (sched : W → ℕ → ℕ) (profile : Profile) (dry_run : Bool) (size : Text → ℕ)
      (fuel : ℕ) where
    -- Enough fuel: there are bounds on the number of directories below each one that the server
    -- lists, and the one for the root is below the fuel.
    abbrev pub Enough : Type 0
    Enough = Sizes c size × (size profile.remote_path < fuel)
