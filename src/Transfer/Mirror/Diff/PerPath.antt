-- ===== src/Transfer/Mirror/Diff/PerPath.antt =====
-- What `diffTrees` of internal/transfer/mirror.go decides for one path, in whatever order the
-- maps are walked.
use mathlib.Core.List.{append-nil}
use sfync.Base.{◌≡◌, refl, Text, Option, none, some, List, [], ◌∷◌, arith}
use sfync.Base.{Bool, true, false, if◌then◌else◌, ◌==◌, text_eq, select, select-append}
use sfync.Base.Dict.{Dict, lookup, NodupKeys}
use sfync.Transfer.Types.{FileInfo, RemoteFileInfo, MirrorEntry}
use sfync.Transfer.Types.{action_upload, action_download, action_delete, action_delete_dir}
use sfync.Transfer.Types.{action_mkdir, action_skip, action_conflict}
use sfync.Transfer.Mirror.Diff.{
  plain, is_different, diff_local_up, diff_remote_up, diff_remote_down, diff_local_down, collect,
  diff_trees,
}

-- The entries of a list of actions that concern `p`.
abbrev pub at_path : Text → List MirrorEntry → List MirrorEntry
at_path p = select (λ a. p == a.rel_path)

-- What is to be done at `p`, from what stands there on the side that is copied from and on the
-- side that is copied to. `changed` is the verdict on two files.
module _ {S T : Type 0} (is_dir : S → Bool) (is_dir' : T → Bool) (p : Text) where
  abbrev pub decision :
      (S → MirrorEntry)
      → (S → T → MirrorEntry)
      → (S → T → Bool)
      → Option S
      → Option T
      → List MirrorEntry
  decision new update changed none none = []
  decision new update changed none (some t) =
      plain (if is_dir' t then action_delete_dir else action_delete) p ∷ []
  decision new update changed (some s) none =
      (if is_dir s then plain action_mkdir p else new s) ∷ []
  decision new update changed (some s) (some t) =
      if is_dir s
      then (if is_dir' t then [] else plain action_conflict p ∷ [])
      else if is_dir' t
      then plain action_conflict p ∷ []
      else if changed s t
      then update s t ∷ []
      else plain action_skip p ∷ []

abbrev pub up_decision : Text → Option FileInfo → Option RemoteFileInfo → List MirrorEntry
up_decision p =
    decision (λ l. l.is_dir) (λ r. r.is_dir) p
      (λ l. record (plain action_upload p) { local_info = some l; is_new = true })
      (λ l r. record (plain action_upload p) { local_info = some l; remote_info = some r })
      (λ l r. is_different l r)

abbrev pub down_decision : Text → Option FileInfo → Option RemoteFileInfo → List MirrorEntry
down_decision p l r =
    decision (λ s. s.is_dir) (λ t. t.is_dir) p
      (λ s. record (plain action_download p) { remote_info = some s; is_new = true })
      (λ s t. record (plain action_download p) { local_info = some t; remote_info = some s })
      (λ s t. is_different t s) r l

abbrev on : {V : Type 0} → Option V → (V → List MirrorEntry) → List MirrorEntry
on none f = []
on (some v) f = f v

module _ {V : Type 0} (p : Text) (body : Text → V → List MirrorEntry) where
  -- A body that makes entries for its own key only.
  abbrev Local : Type 0
  Local = (q : Text) (v : V) → at_path p (body q v) ≡ (if p == q then body q v else [])

  at_path-collect :
      Local
      → (m : Dict Text V) → NodupKeys m
      → at_path p (collect body m) ≡ on (lookup p m) (body p)
  unfolding collect lookup
  at_path-collect own [] _ = refl
  at_path-collect own ((q, v) ∷ m) (fresh, u) =
      rw (select-append, own q v, at_path-collect own m u) (ground (arith, append-nil (body q v)))

module _ (p : Text) (local : Dict Text FileInfo) (remote : Dict Text RemoteFileInfo) where
  local_up-Local : Local p (diff_local_up remote)
  unfolding diff_local_up
  local_up-Local q v = ground arith

  remote_up-Local : Local p (diff_remote_up local)
  unfolding diff_remote_up
  remote_up-Local q v = ground arith

  remote_down-Local : Local p (diff_remote_down local)
  unfolding diff_remote_down
  remote_down-Local q v = ground arith

  local_down-Local : Local p (diff_local_down remote)
  unfolding diff_local_down
  local_down-Local q v = ground arith

  -- Uploading, the entries for a path are exactly the one decision that its state on the two
  -- sides calls for, whatever the order of the maps: no path is forgotten or handled twice.
  pub at_path-diff_trees_up :
      NodupKeys local
      → NodupKeys remote
      → at_path p (diff_trees local remote true) ≡ up_decision p (lookup p local) (lookup p remote)
  unfolding diff_trees
  at_path-diff_trees_up u w =
      rw
        (
          select-append,
          at_path-collect p (diff_local_up remote) local_up-Local local u,
          at_path-collect p (diff_remote_up local) remote_up-Local remote w,
        )
        (ground arith)

  -- The same for downloading.
  pub at_path-diff_trees_down :
      NodupKeys local
      → NodupKeys remote
      → at_path p (diff_trees local remote false)
        ≡ down_decision p (lookup p local) (lookup p remote)
  unfolding diff_trees
  at_path-diff_trees_down u w =
      rw
        (
          select-append,
          at_path-collect p (diff_remote_down local) remote_down-Local remote w,
          at_path-collect p (diff_local_down remote) local_down-Local local u,
        )
        (ground arith)
