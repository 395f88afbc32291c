-- ===== src/Watcher/Watch/Unwatching.antt =====
-- internal/watcher/watcher.go: what `Unwatch` takes from the other profiles.
use sfync.Base.{◌≡◌, ◌≢◌, refl, ◌⊎◌, inl, inr, Text, some, List, [], ◌∷◌, Bool, true, false}
use sfync.Base.{if◌then◌else◌, ◌==◌, text_eq, arith}
use sfync.Base.Dict.{lookup, lookup-erase}
use sfync.Base.Paths.{join}
use sfync.Config.{Profile}
use sfync.Ignore.{Matcher}
use sfync.Transfer.Remote.{
  LocalNode, symlink, file, folder, Listing, unlisted, listing_end, listed, root_folder,
}
use sfync.Watcher.Watch.{
  Outside, Watcher, without, remove_node, remove_listing, remove_root, unwatch,
}

abbrev pub Has : Text → List Text → Type 0
Has p [] = ⊥
Has p (q ∷ l) = (p ≡ q) ⊎ Has p l

pub Has-without : (p q : Text) (l : List Text) → Has p (without q l) → Has p l × (p ≢ q)
unfolding without
Has-without p q [] h = elim h [ ]
Has-without p q (r ∷ l) h = step (q == r) refl (Has-without p q l) h
  where
    step :
        (b : Bool)
        → (q == r) ≡ b
        → (Has p (without q l) → Has p l × (p ≢ q))
        → Has p (if b then without q l else r ∷ without q l)
        → Has p (r ∷ l) × (p ≢ q)
    step true e ih h = let (old, ne) = ih h in (inr old, ne)
    step false e ih (inl same) = (inl same, λ (f : p ≡ q). ground arith)
    step false e ih (inr h) = let (old, ne) = ih h in (inr old, ne)

-- The directories of a listing that stands at a path.
abbrev mutual
  pub InNode : Text → Text → LocalNode → Type 0
  InNode p at (symlink name) = ⊥
  InNode p at (file name info) = ⊥
  InNode p at (folder name info inside) =
      (p ≡ join (at ∷ name ∷ [])) ⊎ InListing p (join (at ∷ name ∷ [])) inside

  pub InListing : Text → Text → Listing → Type 0
  InListing p at unlisted = ⊥
  InListing p at listing_end = ⊥
  InListing p at (listed node rest) = InNode p at node ⊎ InListing p at rest

module _ (o : Outside) (glob : Matcher) (p : Text) where
  mutual
    unfolding remove_node

    remove_node-Has :
        (at : Text) (n : LocalNode) (watches : List Text)
        → Has p (remove_node o glob at n watches)
        → Has p watches × ¬ InNode p at n
    remove_node-Has at (symlink name) watches h = (h, λ i. i)
    remove_node-Has at (file name info) watches h = (h, λ i. i)
    remove_node-Has at (folder name info inside) watches h =
        let path = join (at ∷ name ∷ []) in
        let (left, outside) = remove_listing-Has path inside (without path watches) h in
        let (old, ne) = Has-without p path watches left in
        (old, λ i. elim i [ inl e ↦ ne e | inr below ↦ outside below ])

    remove_listing-Has :
        (at : Text) (l : Listing) (watches : List Text)
        → Has p (remove_listing o glob at l watches)
        → Has p watches × ¬ InListing p at l
    remove_listing-Has at unlisted watches h = (h, λ i. i)
    remove_listing-Has at listing_end watches h = (h, λ i. i)
    remove_listing-Has at (listed node rest) watches h =
        let (left, not_rest) = remove_listing-Has at rest (remove_node o glob at node watches) h in
        let (old, not_node) = remove_node-Has at node watches left in
        (old, λ i. elim i [ inl n ↦ not_node n | inr r ↦ not_rest r ])

-- `Unwatch` of a profile whose context is listed gives up the context and every directory in it,
-- and keeps all other profiles; so where the context of one of those is such a directory, it is not
-- watched any more though its profile stays.
pub unwatch_takes :
    (o : Outside) (glob : Matcher) (w : Watcher) (name : Text) (profile : Profile)
    (inside : Listing)
    → lookup name w.profiles ≡ some profile
    → o.tree profile.context ≡ root_folder inside
    → let w' = (unwatch o glob name w).1 in
      ((p : Text) → (p ≡ profile.context) ⊎ InListing p profile.context inside → ¬ Has p w'.watches)
      × ((other : Text) → name ≢ other → lookup other w'.profiles ≡ lookup other w.profiles)
unfolding unwatch remove_root
unwatch_takes o glob w name profile inside found listed_in = rw found (
  λ p taken h.
      let (left, not_below) =
        remove_listing-Has o glob p profile.context inside (without profile.context w.watches)
          (rw listed_in at h) in
      elim taken [
        | inl top ↦ (Has-without p profile.context w.watches left).1 top
        | inr below ↦ not_below below
      ],
  λ other ne. ground (arith, lookup-erase other name w.profiles),
)
