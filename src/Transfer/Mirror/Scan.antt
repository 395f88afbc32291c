-- ===== src/Transfer/Mirror/Scan.antt =====
-- internal/transfer/mirror.go: `walkLocal` and `walkRemote`; internal/transfer/atomic.go:
-- `IsPartialName`. Here the directories of the server are listed one at a time, as for a client
-- without concurrent requests; Scan.Remote has the concurrent walk.
pub mod Remote
pub mod Fuel
pub mod Slots
pub mod Returns
pub mod Hazards
use sfync.Base.{
  ℕ, zero, suc, Text, codes, Option, none, some, List, [], ◌∷◌, ◌++◌, Bool, true, false,
}
use sfync.Base.{◌&&◌, not, if◌then◌else◌, ◌==◌, text_eq, has_suffix}
use sfync.Base.Dict.{Dict, insert}
use sfync.Ignore.{Matcher, should_ignore}
use sfync.Transfer.Types.{FileInfo, RemoteFileInfo}
use sfync.Transfer.Remote.{
  RemoteClient, Answer, ok, err, LocalNode, symlink, file, folder, Listing, unlisted, listing_end,
  listed, LocalRoot, no_access, root_symlink, root_file, root_folder,
}

-- `IsPartialName`
unfoldable pub is_partial_name : Text → Bool
unfolding has_suffix
is_partial_name name = has_suffix name (codes ".sfync-part")

-- The path of a name in a directory, relative to the root of the walk.
unfoldable pub relative : Text → Text → Text
relative rel_dir name = if rel_dir == [] then name else rel_dir ++ (codes "/" ++ name)

-- What `WalkDir` calls its function with: an error, and whether there is an entry that is a
-- directory; else the entry.
pub data Visited : Type 0 where
  inaccessible : Bool → Visited
  link : Visited
  plain_file directory : Text → Option FileInfo → Visited

module _ (glob : Matcher) (patterns : List Text) where
  -- `entries[relPath] = …`, unless `d.Info()` failed.
  abbrev pub put_info : Text → Option FileInfo → Dict Text FileInfo → Dict Text FileInfo
  put_info p none entries = entries
  put_info p (some info) entries = insert p info entries

  -- The function that `walkLocal` hands to `WalkDir`, on the relative path, which is [] for the
  -- root. True where it returns SkipDir, else it returns no error.
  unfoldable pub visit : Text → Visited → Dict Text FileInfo → Bool × Dict Text FileInfo
  unfolding should_ignore is_partial_name insert
  visit rel_path (inaccessible is_dir) entries = (is_dir, entries)
  visit rel_path link entries = (false, entries)
  visit rel_path (plain_file name info) entries =
      if is_partial_name name
      then (false, entries)
      else if rel_path == []
      then (false, entries)
      else if should_ignore glob patterns rel_path
      then (false, entries)
      else (false, put_info rel_path info entries)
  visit rel_path (directory name info) entries =
      if rel_path == []
      then (false, entries)
      else if should_ignore glob patterns rel_path
      then (true, entries)
      else (false, put_info rel_path info entries)

  unfoldable mutual
    unfolding visit relative

    -- The descent of `WalkDir`, which does not follow links, and leaves out a directory for which
    -- SkipDir is returned. Where a directory cannot be read, the function is called again.
    pub walk_node : Text → LocalNode → Dict Text FileInfo → Dict Text FileInfo
    walk_node rel_dir (symlink name) entries = (visit (relative rel_dir name) link entries).1
    walk_node rel_dir (file name info) entries =
        (visit (relative rel_dir name) (plain_file name info) entries).1
    walk_node rel_dir (folder name info inside) entries =
        let (skipped, here) = visit (relative rel_dir name) (directory name info) entries in
        let below = walk_listing (relative rel_dir name) inside here in
        if skipped then here else below

    pub walk_listing : Text → Listing → Dict Text FileInfo → Dict Text FileInfo
    walk_listing rel_dir unlisted entries = (visit rel_dir (inaccessible true) entries).1
    walk_listing rel_dir listing_end entries = entries
    walk_listing rel_dir (listed node rest) entries =
        walk_listing rel_dir rest (walk_node rel_dir node entries)

  -- `walkLocal`. Its function returns no error but SkipDir, so `WalkDir` returns none. `WalkDir`
  -- looks at the root without following a link, and calls the function without an entry where it
  -- cannot.
  unfoldable pub walk_local : LocalRoot → Dict Text FileInfo
  unfolding walk_node visit
  walk_local no_access = (visit [] (inaccessible false) []).1
  walk_local root_symlink = (visit [] link []).1
  walk_local root_file = (visit [] (plain_file [] none) []).1
  walk_local (root_folder inside) =
      let (skipped, here) = visit [] (directory [] none) [] in
      let below = walk_listing [] inside here in if skipped then here else below

  -- The entries found so far, and the subdirectories of the directory at hand.
  abbrev pub Found : Type 0
  Found = Dict Text RemoteFileInfo × List Text

  -- Whether the loop over the items goes on to the next item at once.
  unfoldable pub passes_over : Text → RemoteFileInfo → Bool
  unfolding should_ignore is_partial_name relative
  passes_over rel_dir item =
      if not item.is_dir && is_partial_name item.name
      then true
      else should_ignore glob patterns (relative rel_dir item.name)

  -- The loop over the items: the entries, and the names of the subdirectories in order.
  unfoldable pub note_items : Text → List RemoteFileInfo → Dict Text RemoteFileInfo → Found
  unfolding passes_over relative insert
  note_items rel_dir [] entries = (entries, [])
  note_items rel_dir (item ∷ items) entries =
      let p = relative rel_dir item.name in
      let skipped = note_items rel_dir items entries in
      let (entries', subdirs) =
        note_items rel_dir items (insert p (record item { path = p }) entries) in
      if passes_over rel_dir item
      then skipped
      else (entries', if item.is_dir then item.name ∷ subdirs else subdirs)

  module _ {W : Type 0} (c : RemoteClient W) where
    abbrev pub Walked : Type 0
    Walked = Option (Dict Text RemoteFileInfo × W)

    -- The loop over the subdirectories, once walking one is given.
    unfoldable pub walk_each :
        (Text → Text → Dict Text RemoteFileInfo → W → Walked)
        → Text
        → Text
        → List Text
        → Dict Text RemoteFileInfo
        → W
        → Walked
    unfolding relative
    walk_each walk dir rel_dir [] entries w = some (entries, w)
    walk_each walk dir rel_dir (name ∷ names) entries w =
        elim (walk (dir ++ (codes "/" ++ name)) (relative rel_dir name) entries w) [
          | none ↦ none
          | some found ↦ walk_each walk dir rel_dir names found.0 found.1
        ]

    abbrev pub go_on :
        (Text → Text → Dict Text RemoteFileInfo → W → Walked)
        → Text
        → Text
        → Dict Text RemoteFileInfo
        → Answer (List RemoteFileInfo) × W
        → Walked
    go_on walk dir rel_dir entries (err e, w) = some (entries, w)
    go_on walk dir rel_dir entries (ok items, w) =
        let (entries', subdirs) = note_items rel_dir items entries in
        walk_each walk dir rel_dir subdirs entries' w

    -- `walk`, on fuel: how deep directories are followed, none where they go deeper. A directory
    -- that cannot be listed is passed over.
    unfoldable pub walk_dir : ℕ → Text → Text → Dict Text RemoteFileInfo → W → Walked
    unfolding walk_each note_items
    walk_dir zero dir rel_dir entries w = none
    walk_dir (suc fuel) dir rel_dir entries w =
        go_on (walk_dir fuel) dir rel_dir entries (c.read_dir dir w)
