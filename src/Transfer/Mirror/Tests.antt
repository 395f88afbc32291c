-- ===== src/Transfer/Mirror/Tests.antt =====
-- Runs of internal/transfer/mirror.go.
use mathlib.Core.List.{flatten}
use sfync.Base.{
  ◌+◌, ◌≤◌, ◌≡◌, refl, ◌↔◌, Text, codes, some, [], ◌∷◌, arith, Perm, AllPairs, All, Chain, select,
}
use sfync.Base.{true, false, nat_eq, text_eq}
use sfync.Base.Dict.{Dict, lookup}
use sfync.Transfer.Types.{
  FileInfo, RemoteFileInfo, action_mkdir, action_upload, action_delete_dir, action_skip,
}
use sfync.Transfer.Mirror.Diff.{is_different, slack, diff_trees, plain}
use sfync.Transfer.Mirror.Diff.Window.{is_different_window}
use sfync.Transfer.Mirror.Diff.PerPath.{
  at_path, up_decision, down_decision, at_path-diff_trees_up, at_path-diff_trees_down,
}
use sfync.Transfer.Mirror.Order.{sort_actions, depth_levels}
use sfync.Transfer.Mirror.Insertion.{insertion}
use sfync.Transfer.Mirror.Order.Phases.{
  Precedes, is_active, sort_actions_ordered, sort_actions-perm,
}
use sfync.Transfer.Mirror.Order.Levels.{IsLevel, Apart, depth_levels_lem}

abbrev here : FileInfo
here = record { size = 3; mod_time = 5_000_000_000; is_dir = false }

abbrev there : RemoteFileInfo
there = record {
  name = codes "a";
  path = codes "a";
  size = 3;
  mod_time = 4_000_000_000;
  is_dir = false;
  mode = 420;
  mod_time_precision = 0;
}

abbrev local : Dict Text FileInfo
local = (codes "a", here) ∷ (codes "d", record here { is_dir = true }) ∷ (codes "d/n", here) ∷ []

abbrev remote : Dict Text RemoteFileInfo
remote = (codes "old", record there { is_dir = true }) ∷ (codes "a", there) ∷ []

diff_trees_test :
    diff_trees local remote true
    ≡ plain action_skip (codes "a")
      ∷ plain action_mkdir (codes "d")
      ∷ record (plain action_upload (codes "d/n")) { local_info = some here; is_new = true }
      ∷ plain action_delete_dir (codes "old")
      ∷ []
unfolding diff_trees nat_eq text_eq
diff_trees_test = refl

is_different_window_example : (is_different here there ≡ false) ↔ (
    (here.size ≡ there.size)
    × (there.mod_time ≤ here.mod_time + slack)
    × (here.mod_time ≤ there.mod_time + there.mod_time_precision + slack))
is_different_window_example = is_different_window here there (omega arith)

at_path-diff_trees_up_example :
    at_path (codes "d") (diff_trees local remote true)
    ≡ up_decision (codes "d") (lookup (codes "d") local) (lookup (codes "d") remote)
unfolding lookup nat_eq text_eq
at_path-diff_trees_up_example =
    at_path-diff_trees_up (codes "d") local remote (refl, (refl, (refl, tt))) (refl, (refl, tt))

at_path-diff_trees_down_example :
    at_path (codes "d") (diff_trees local remote false)
    ≡ down_decision (codes "d") (lookup (codes "d") local) (lookup (codes "d") remote)
unfolding lookup nat_eq text_eq
at_path-diff_trees_down_example =
    at_path-diff_trees_down (codes "d") local remote (refl, (refl, (refl, tt))) (refl, (refl, tt))

depth_levels_lem_example :
    let l = diff_trees local remote true in
    (flatten (depth_levels l) ≡ l) × All IsLevel (depth_levels l) × Chain Apart (depth_levels l)
depth_levels_lem_example = depth_levels_lem (diff_trees local remote true)

sort_actions_ordered_example :
    AllPairs Precedes (sort_actions insertion (diff_trees local remote true))
sort_actions_ordered_example = sort_actions_ordered insertion (diff_trees local remote true)

sort_actions-perm_example :
    Perm
      (sort_actions insertion (diff_trees local remote true))
      (select is_active (diff_trees local remote true))
sort_actions-perm_example = sort_actions-perm insertion (diff_trees local remote true)
