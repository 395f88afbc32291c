-- ===== src/Transfer/Mirror/Scan/Hazards.antt =====
-- internal/transfer/mirror.go: what a side that could not be read makes of the comparison.
use sfync.Base.{ℕ, zero, suc, ◌*◌, ◌≡◌, refl, ap, ◌∙◌, Text, some, List, [], ◌∷◌, ◌++◌}
use sfync.Base.{Bool, true, false, if◌then◌else◌, arith}
use sfync.Base.Dict.{Dict}
use sfync.Ignore.{Matcher}
use sfync.Transfer.Types.{FileInfo, RemoteFileInfo, MirrorEntry}
use sfync.Transfer.Types.{action_delete, action_delete_dir}
use sfync.Transfer.Client.{Error}
use sfync.Transfer.Remote.{RemoteClient, Answer, err, no_access, root_symlink}
use sfync.Transfer.Mirror.Diff.{collect, diff_trees, diff_local_down, diff_remote_up}
use sfync.Transfer.Mirror.Scan.{walk_local, walk_dir, go_on, visit}
use sfync.Transfer.Mirror.Scan.Remote.{
  Lister, Walk, spawned, listing, noting, move_on, advance, any_move, next, moves, walk_started,
  walk_remote,
}

-- The actions delete each path of a side, in order and as what it is, and nothing else.
abbrev pub Deletes : {V : Type 0} → (V → Bool) → Dict Text V → List MirrorEntry → Type 0
Deletes is_dir [] [] = Unit
Deletes is_dir [] (a ∷ actions) = ⊥
Deletes is_dir (_ ∷ side) [] = ⊥
Deletes is_dir ((p, v) ∷ side) (a ∷ actions) =
    (a.rel_path ≡ p)
    × (a.action ≡ (if is_dir v then action_delete_dir else action_delete))
    × Deletes is_dir side actions

if_Deletes :
    {V : Type 0} (is_dir : V → Bool) (p : Text) (v : V) (side : Dict Text V) (a b : MirrorEntry)
    (rest : List MirrorEntry)
    → a.rel_path ≡ p
    → a.action ≡ action_delete_dir
    → b.rel_path ≡ p
    → b.action ≡ action_delete
    → Deletes is_dir side rest
    → Deletes is_dir ((p, v) ∷ side) ((if is_dir v then a ∷ [] else b ∷ []) ++ rest)
if_Deletes is_dir p v side a b rest h1 h2 h3 h4 h = step (is_dir v) refl
  where
    step :
        (c : Bool)
        → is_dir v ≡ c
        → Deletes is_dir ((p, v) ∷ side) ((if c then a ∷ [] else b ∷ []) ++ rest)
    step true e = (h1, rw e h2, h)
    step false e = (h3, rw e h4, h)

diff_remote_up-Deletes :
    (remote : Dict Text RemoteFileInfo)
    → Deletes (λ r. r.is_dir) remote (collect (diff_remote_up []) remote)
unfolding collect diff_remote_up
diff_remote_up-Deletes [] = tt
diff_remote_up-Deletes ((p, r) ∷ remote) =
    if_Deletes (λ r. r.is_dir) p r remote _ _ (collect (diff_remote_up []) remote) refl refl refl
      refl (diff_remote_up-Deletes remote)

diff_local_down-Deletes :
    (local : Dict Text FileInfo)
    → Deletes (λ v. v.is_dir) local (collect (diff_local_down []) local)
unfolding collect diff_local_down
diff_local_down-Deletes [] = tt
diff_local_down-Deletes ((p, v) ∷ local) =
    if_Deletes (λ v. v.is_dir) p v local _ _ (collect (diff_local_down []) local) refl refl refl
      refl (diff_local_down-Deletes local)

-- For a local root that cannot be looked at, or that is a symbolic link, mirroring up has one action
-- for each path on the server, which deletes it, and no other action.
pub lost_root-Deletes :
    (glob : Matcher) (patterns : List Text) (remote : Dict Text RemoteFileInfo)
    → Deletes (λ r. r.is_dir) remote (diff_trees (walk_local glob patterns no_access) remote true)
      × Deletes
          (λ r. r.is_dir)
          remote
          (diff_trees (walk_local glob patterns root_symlink) remote true)
unfolding walk_local visit diff_trees collect
lost_root-Deletes glob patterns remote = let all = diff_remote_up-Deletes remote in (all, all)

module _ {W : Type 0} (glob : Matcher) (patterns : List Text) (c : RemoteClient W) where
  -- The only goroutine is the one that moves.
  alone :
      (n : ℕ) (p : Lister) (free : ℕ) (entries : Dict Text RemoteFileInfo) (w : W) (s' : Walk W)
      → let s : Walk W = record {
        listers = p ∷ [];
        free_slots = free;
        entries = entries;
        world = w;
      } in
        move_on glob patterns c p [] s ≡ some s' → next glob patterns c n s ≡ some s'
  unfolding next advance any_move
  alone zero p free entries w s' h = rw h refl
  alone (suc n) p free entries w s' h = rw h refl

  moves-next :
      (sched : ℕ → ℕ) (fuel : ℕ) (s s' : Walk W)
      → next glob patterns c (sched fuel) s ≡ some s'
      → moves glob patterns c (suc fuel) sched s ≡ moves glob patterns c fuel sched s'
  unfolding moves
  moves-next sched fuel s s' h = rw (moves, h) refl

  moves-ended :
      (sched : ℕ → ℕ) (fuel free : ℕ) (entries : Dict Text RemoteFileInfo) (w : W)
      → moves glob patterns c fuel sched
          (record { listers = []; free_slots = free; entries = entries; world = w })
        ≡ some (entries, w)
  unfolding moves next advance any_move
  moves-ended sched zero free entries w = refl
  moves-ended sched (suc fuel) free entries w = refl

  -- The concurrent walk of a root that cannot be listed.
  unlisted_root-moves :
      (sched : ℕ → ℕ) (fuel : ℕ) (root : Text) (e : Error) (w w' : W)
      → c.read_dir root w ≡ (err e, w')
      → moves glob patterns c (suc (suc (suc fuel))) sched (walk_started glob patterns c root w)
        ≡ some ([], w')
  unfolding move_on
  unlisted_root-moves sched fuel root e w w' h =
      moves-next sched (suc (suc fuel)) _ _
        (alone (sched (suc (suc fuel))) (spawned root []) 32 [] w _ refl)
      ∙ moves-next sched (suc fuel) _ _ (
          alone (sched (suc fuel)) (listing root []) 31 [] w _ (
            ap
              (λ (r : Answer (List RemoteFileInfo) × W). some (record {
                listers = noting root [] r.0 ∷ [];
                free_slots = 31;
                entries = [];
                world = r.1;
              }))
              h))
      ∙ moves-next sched fuel _ _ (alone (sched fuel) (noting root [] (err e)) 31 [] w' _ refl)
      ∙ moves-ended sched fuel 32 [] w'

  -- A root on the server that cannot be listed is walked as an empty tree, by clients with and
  -- without concurrent requests and whatever the scheduler chooses; with that, mirroring down has
  -- one action for each local path, which deletes it, and no other action.
  pub unlisted_root-Deletes :
      (sched : W → ℕ → ℕ) (fuel : ℕ) (remote_root : Text) (e : Error) (w w' : W)
      → c.read_dir remote_root w ≡ (err e, w')
      → (walk_remote glob patterns c sched (suc fuel) remote_root w ≡ some ([], w'))
        × ((local : Dict Text FileInfo) → Deletes (λ v. v.is_dir) local (diff_trees local [] false))
  unfolding walk_remote walk_dir diff_trees collect
  unlisted_root-Deletes sched fuel remote_root e w w' h =
      (step c.supports_concurrent, λ local. diff_local_down-Deletes local)
    where
      step :
          (b : Bool)
          → (if b
              then moves glob patterns c
                  (3 * suc fuel)
                  (sched w)
                  (walk_started glob patterns c remote_root w)
              else walk_dir glob patterns c (suc fuel) remote_root [] [] w)
            ≡ some ([], w')
      step true =
          ap (λ n. moves glob patterns c n (sched w) (walk_started glob patterns c remote_root w))
            three
          ∙ unlisted_root-moves (sched w) (3 * fuel) remote_root e w w' h
        where
          three : 3 * suc fuel ≡ suc (suc (suc (3 * fuel)))
          three = omega arith
      step false = ap (go_on glob patterns c (walk_dir glob patterns c fuel) remote_root [] []) h
