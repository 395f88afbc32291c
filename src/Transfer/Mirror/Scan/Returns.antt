-- ===== src/Transfer/Mirror/Scan/Returns.antt =====
-- internal/transfer/mirror.go, `walkRemote`: the goroutines of the concurrent walk come to an end,
-- whatever the scheduler chooses, and none is left waiting for a slot.
use sfync.Base.{
  ℕ, zero, suc, ◌+◌, ◌*◌, ◌<◌, ◌≤◌, ◌≡◌, ◌≢◌, refl, Text, Option, none, some, List, [],
}
use sfync.Base.{◌∷◌, ◌++◌, Bool, true, false, if◌then◌else◌, is_some, arith}
use sfync.Base.Dict.{Dict}
use sfync.Ignore.{Matcher}
use sfync.Transfer.Types.{RemoteFileInfo}
use sfync.Transfer.Remote.{RemoteClient, ok, err}
use sfync.Transfer.Mirror.Transfers.{or_else}
use sfync.Transfer.Mirror.Transfers.Progress.{sum_of}
use sfync.Transfer.Mirror.Scan.{walk_dir}
use sfync.Transfer.Mirror.Scan.Fuel.{walk_dir-Returns}
use sfync.Transfer.Mirror.Scan.Slots.{Sizes, Sizes-Heights, left, takes, Moved, walk, next-Moved}
use sfync.Transfer.Mirror.Scan.Remote.{
  Lister, spawned, listing, noting, Walk, move_on, advance, any_move, next, waited, moves,
  walk_started, walk_remote,
}

module _ {W : Type 0} (glob : Matcher) (patterns : List Text) (c : RemoteClient W)
    (size : Text → ℕ) where
  nothing-or_else :
      (o other : Option (Walk W)) → or_else o other ≡ none → (o ≡ none) × (other ≡ none)
  nothing-or_else none other e = (refl, e)
  nothing-or_else (some _) other e = absurd (cc)

  module _ (fits : Sizes c size) where
    -- A goroutine is blocked only before it has a slot, where none is free.
    blocked :
        (p : Lister) (others listers : List Lister) (free : ℕ) (entries : Dict Text RemoteFileInfo)
        (w : W)
        → move_on glob patterns c p others (walk glob patterns c size listers free entries w) ≡ none
        → (takes glob patterns c size p ≡ 0) × (free ≡ 0)
    unfolding move_on
    blocked (spawned dir rel_dir) others listers zero entries w e = (refl, refl)
    blocked (spawned dir rel_dir) others listers (suc n) entries w e = absurd (cc)
    blocked (listing dir rel_dir) others listers free entries w e = absurd (cc)
    blocked (noting dir rel_dir (err _)) others listers free entries w e = absurd (cc)
    blocked (noting dir rel_dir (ok items)) others listers free entries w e = absurd (cc)

    all_blocked :
        (s : Walk W) (before after : List Lister)
        → any_move glob patterns c before after s ≡ none
        → (sum_of (takes glob patterns c size) after ≡ 0) × (after ≢ [] → s.free_slots ≡ 0)
    unfolding any_move
    all_blocked s before [] e = (refl, λ h. absurd (h refl))
    all_blocked s before (p ∷ after) e =
        let (now, later) = nothing-or_else (move_on glob patterns c p (before ++ after) s) _ e in
        let (no_slot, full) =
          blocked p (before ++ after) s.listers s.free_slots s.entries s.world now in
        let rest = all_blocked s (before ++ p ∷ []) after later in
        (omega (arith, rest.0), λ _. full)

    -- So the goroutines have all ended where none can move.
    waited-returns :
        (n : ℕ) (s : Walk W)
        → 0 < s.free_slots + sum_of (takes glob patterns c size) s.listers
        → next glob patterns c n s ≡ none
        → is_some (waited glob patterns c s.listers s) ≡ true
    unfolding next
    waited-returns n s slots e =
        let (_, e') = nothing-or_else (advance glob patterns c n [] s.listers s) _ e in
        let (none_taken, full) = all_blocked s [] s.listers e' in
        step s.listers (λ h. absurd (omega (arith, full h)))
      where
        step : (l : List Lister) → ((l ≢ []) → ⊥) → is_some (waited glob patterns c l s) ≡ true
        step [] h = refl
        step (p ∷ l) h = absurd (h (λ e. absurd (cc)))

    moves-returns :
        (fuel : ℕ) (sched : ℕ → ℕ) (s : Walk W)
        → sum_of (left glob patterns c size) s.listers ≤ fuel
        → 0 < s.free_slots + sum_of (takes glob patterns c size) s.listers
        → is_some (moves glob patterns c fuel sched s) ≡ true
    unfolding moves
    moves-returns zero sched s h slots = at_end s.listers h
      where
        at_end :
            (l : List Lister)
            → sum_of (left glob patterns c size) l ≤ 0
            → is_some (waited glob patterns c l s) ≡ true
        at_end [] h = refl
        at_end (spawned _ _ ∷ l) h = absurd (omega arith)
        at_end (listing _ _ ∷ l) h = absurd (omega arith)
        at_end (noting _ _ (err _) ∷ l) h = absurd (omega arith)
        at_end (noting _ _ (ok _) ∷ l) h = absurd (omega arith)
    moves-returns (suc fuel) sched s h slots =
        by_next (next glob patterns c (sched fuel) s) refl
          (next-Moved glob patterns c size fits (sched fuel) s) (λ s'. moves-returns fuel sched s')
      where
        by_next :
            (o : Option (Walk W))
            → next glob patterns c (sched fuel) s ≡ o
            → Moved glob patterns c size s o
            → ((s' : Walk W)
                → sum_of (left glob patterns c size) s'.listers ≤ fuel
                → 0 < s'.free_slots + sum_of (takes glob patterns c size) s'.listers
                → is_some (moves glob patterns c fuel sched s') ≡ true)
            → is_some (elim o [
              | none ↦ waited glob patterns c s.listers s
              | some s' ↦ moves glob patterns c fuel sched s'
            ])
              ≡ true
        by_next none e moved rest = waited-returns (sched fuel) s slots e
        by_next (some s') e (less, same) rest = rest s' (omega arith) (omega arith)

    -- If fewer directories than the fuel stand below the root, the walk returns.
    pub walk_remote-returns :
        (sched : W → ℕ → ℕ) (fuel : ℕ) (remote_root : Text) (w : W)
        → size remote_root < fuel
        → is_some (walk_remote glob patterns c sched fuel remote_root w) ≡ true
    unfolding walk_remote
    walk_remote-returns sched fuel remote_root w h = step c.supports_concurrent
      where
        step :
            (b : Bool)
            → is_some (
                if b
                then moves glob patterns c
                    (3 * fuel)
                    (sched w)
                    (walk_started glob patterns c remote_root w)
                else walk_dir glob patterns c fuel remote_root [] [] w)
              ≡ true
        step true =
            moves-returns (3 * fuel) (sched w) (walk_started glob patterns c remote_root w)
              (omega arith) (omega arith)
        step false =
            walk_dir-Returns glob patterns c size (Sizes-Heights c size fits) fuel remote_root [] []
              w h
