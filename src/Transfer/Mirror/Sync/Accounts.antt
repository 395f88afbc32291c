-- ===== src/Transfer/Mirror/Sync/Accounts.antt =====
-- internal/transfer/mirror.go, `MirrorUp` and `MirrorDown`: what a result says of the differences.
use sfync.Base.{List}
use sfync.Base.Dict.{Dict}
