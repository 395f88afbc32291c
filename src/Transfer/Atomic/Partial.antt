-- ===== src/Transfer/Atomic/Partial.antt =====
-- internal/transfer/atomic.go: the name of a partial file.
use sfync.Base.{◌+◌, ◌≡◌, ◌≢◌, ap, Text, codes, ◌++◌}
use sfync.Base.{nat_eq, length, length-append, arith}
use sfync.Base.Paths.{split_last, split_last-append}
use sfync.Transfer.Atomic.{remote_partial_path, partial_suffix}

remote_partial_path-length : (p : Text) → length (remote_partial_path p) ≡ length p + 12
unfolding remote_partial_path
remote_partial_path-length p =
    let (at, name) = split_last p in
    omega (
      arith,
      ap length (split_last-append p),
      length-append at name,
      length-append at (codes "." ++ (name ++ partial_suffix)),
      length-append name partial_suffix,
    )

-- A partial file is another file than the one it stands for.
pub remote_partial_path-ne : (p : Text) → remote_partial_path p ≢ p
remote_partial_path-ne p e = omega (arith, ap length e, remote_partial_path-length p)
