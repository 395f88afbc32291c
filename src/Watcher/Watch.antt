-- ===== src/Watcher/Watch.antt =====
-- internal/watcher/watcher.go: which directories are watched, and which files are scheduled for a
-- sync. The files on disk, `os.Lstat`, `filepath.Rel` and whether fsnotify takes a directory are
-- parameters; the directories that fsnotify was told to watch are a part of the state.
pub mod Contexts
pub mod Depths
pub mod Matching
pub mod Unwatching
pub mod Events
pub mod Tests
use sfync.Base.{ℕ, zero, suc, ◌+◌, ◌*◌, Text, codes, Option, none, some, List, [], ◌∷◌, ◌++◌}
use sfync.Base.{Bool, true, false, not, ◌&&◌, ◌||◌, if◌then◌else◌, ◌==◌, nat_eq, text_eq, is_some}
use sfync.Base.{count_byte, has_prefix, ℤ, pos, negsuc, ltb_ℤ, ℤ_eq}
use sfync.Base.Dict.{Dict, lookup, insert, erase}
use sfync.Base.Paths.{clean, join, dir, base}
use sfync.Config.{Profile}
use sfync.Ignore.{Matcher, IgnoreFile, load, should_ignore}
use sfync.Transfer.Types.{FileInfo}
use sfync.Transfer.Remote.{
  LocalNode, symlink, file, folder, Listing, unlisted, listing_end, listed, LocalRoot, no_access,
  root_symlink, root_file, root_folder,
}
use sfync.Transfer.Mirror.Scan.{is_partial_name, relative}
use sfync.Watcher.Process.{patterns_of}

-- What `os.Lstat` says.
pub data FileKind : Type 0 where
  vanished directory link regular_file special_file : FileKind

-- `missing_dir` is `os.Stat` failing with fs.ErrNotExist; `rel` is `filepath.Rel`; `refuses` says
-- that fsnotify does not watch the path.
pub record Outside : Type 0 where
  pub tree : Text → LocalRoot
  pub kind : Text → FileKind
  pub missing_dir : Text → Bool
  pub rel : Text → Text → Option Text
  pub refuses : Text → Bool
  pub ignore_file : Text → IgnoreFile

-- A call of the debouncer: the key, the delay in milliseconds, the profile and the file.
pub record Debounced : Type 0 where
  pub key : Text
  pub delay : ℤ
  pub profile_name : Text
  pub file_path : Text

-- `Watcher`. A profile has a callback when it is in `profiles`.
pub record Watcher : Type 0 where
  pub profiles : Dict Text Profile
  pub context_depths : Dict Text ℕ
  pub syncignore_cache : Dict Text (List Text)
  pub watches : List Text
  pub scheduled : List Debounced

unfoldable pub new_watcher : Watcher
new_watcher = record {
  profiles = [];
  context_depths = [];
  syncignore_cache = [];
  watches = [];
  scheduled = [];
}

unfoldable pub without : Text → List Text → List Text
without p [] = []
without p (q ∷ l) = let rest = without p l in if p == q then rest else q ∷ rest

-- `escapesBase`
unfoldable pub escapes_base : Text → Bool
unfolding has_prefix
escapes_base rel = rel == codes ".." || has_prefix rel (codes "../")

-- The test of `findMatchingProfiles` on a context.
unfoldable pub is_under : Text → Text → Bool
unfolding has_prefix
is_under file_path context = has_prefix file_path (context ++ codes "/") || file_path == context

abbrev pub depth_of : Option ℕ → ℕ
depth_of none = 0
depth_of (some d) = d

-- Its three loops: the matches with their depths, the largest depth, and the names at that depth.
unfoldable pub matches_in : Text → Dict Text ℕ → Dict Text Profile → List (Text × ℕ)
unfolding is_under lookup
matches_in file_path depths [] = []
matches_in file_path depths ((name, profile) ∷ profiles) =
    let rest = matches_in file_path depths profiles in
    if is_under file_path profile.context
    then (name, depth_of (lookup name depths)) ∷ rest
    else rest

unfoldable pub max_depth : ℤ → List (Text × ℕ) → ℤ
max_depth deepest [] = deepest
max_depth deepest ((name, depth) ∷ matches) =
    max_depth (if ltb_ℤ deepest (pos depth) then pos depth else deepest) matches

unfoldable pub names_at : ℤ → List (Text × ℕ) → List Text
unfolding ℤ_eq
names_at deepest [] = []
names_at deepest ((name, depth) ∷ matches) =
    let rest = names_at deepest matches in if pos depth == deepest then name ∷ rest else rest

unfoldable pub find_matching_profiles : Text → Watcher → List Text
unfolding matches_in max_depth names_at
find_matching_profiles file_path w =
    let matches = matches_in file_path w.context_depths w.profiles in
    names_at (max_depth (negsuc 0) matches) matches

-- The loop of `schedule`.
abbrev pub schedule_one : Text → Text → Option Profile → List Debounced → List Debounced
schedule_one file_path name none added = added
schedule_one file_path name (some profile) added =
    record {
      key = name ++ (codes ":" ++ file_path);
      delay = profile.auto_sync_debounce;
      profile_name = name;
      file_path = file_path;
    }
    ∷ added

unfoldable pub schedule_all : Text → Dict Text Profile → List Text → List Debounced → List Debounced
unfolding lookup
schedule_all file_path profiles [] added = added
schedule_all file_path profiles (name ∷ names) added =
    schedule_all file_path profiles names (schedule_one file_path name (lookup name profiles) added)

unfoldable pub schedule : Text → Watcher → Watcher
unfolding find_matching_profiles schedule_all
schedule file_path w = record w {
  scheduled = schedule_all file_path w.profiles (find_matching_profiles file_path w) w.scheduled;
}

module _ (o : Outside) (glob : Matcher) where
  abbrev pub cached : Text → Option (List Text) → Watcher → List Text × Watcher
  cached context (some patterns) w = (patterns, w)
  cached context none w =
      let patterns = patterns_of (load (o.ignore_file context)) in
      (patterns, record w { syncignore_cache = insert context patterns w.syncignore_cache })

  -- `getPatterns`
  unfoldable pub get_patterns : Text → Watcher → List Text × Watcher
  unfolding lookup insert load
  get_patterns context w = cached context (lookup context w.syncignore_cache) w

  unfoldable pub invalidate_patterns : Text → Watcher → Watcher
  unfolding erase
  invalidate_patterns context w = record w { syncignore_cache = erase context w.syncignore_cache }

  unfoldable mutual
    unfolding should_ignore relative join

    -- The function that `addRecursive` hands to `WalkDir`, on what is below its root. True where
    -- the walk goes on, false where it ends with an error.
    pub add_node : List Text → Text → Text → LocalNode → List Text → Bool × List Text
    add_node patterns at rel_dir (symlink name) watches = (true, watches)
    add_node patterns at rel_dir (file name info) watches = (true, watches)
    add_node patterns at rel_dir (folder name info inside) watches =
        let path = join (at ∷ name ∷ []) in
        let below = add_listing patterns path (relative rel_dir name) inside (path ∷ watches) in
        if should_ignore glob patterns (relative rel_dir name)
        then (true, watches)
        else if o.refuses path
        then (false, watches)
        else below

    pub add_listing : List Text → Text → Text → Listing → List Text → Bool × List Text
    add_listing patterns at rel_dir unlisted watches = (false, watches)
    add_listing patterns at rel_dir listing_end watches = (true, watches)
    add_listing patterns at rel_dir (listed node rest) watches =
        let (goes_on, watches') = add_node patterns at rel_dir node watches in
        let after = add_listing patterns at rel_dir rest watches' in
        if goes_on then after else (false, watches')

  -- `addRecursive` on the patterns.
  unfoldable pub add_root : List Text → Text → LocalRoot → List Text → Bool × List Text
  unfolding add_node
  add_root patterns root no_access watches = (false, watches)
  add_root patterns root root_symlink watches = (true, watches)
  add_root patterns root root_file watches = (true, watches)
  add_root patterns root (root_folder inside) watches =
      if o.refuses root
      then (false, watches)
      else add_listing patterns root [] inside (root ∷ watches)

  unfoldable pub add_recursive : Text → Watcher → Bool × Watcher
  unfolding get_patterns add_root
  add_recursive root w =
      let (patterns, w') = get_patterns root w in
      let (fine, watches') = add_root patterns root (o.tree root) w'.watches in
      (fine, record w' { watches = watches' })

  -- `Watch`; false where it returns an error. The profile stays when `addRecursive` fails.
  unfoldable pub watch : Text → Profile → Watcher → Bool × Watcher
  unfolding clean insert count_byte add_recursive
  watch name profile w =
      let context = clean profile.context in
      let kept = record profile { context = context } in
      let stored = record w {
        profiles = insert name kept w.profiles;
        context_depths = insert name (count_byte b'/' context) w.context_depths;
      } in
      if o.missing_dir context then (false, w) else add_recursive context stored

  unfoldable mutual
    unfolding without join

    -- The function of `removeRecursive`. It goes on after errors.
    pub remove_node : Text → LocalNode → List Text → List Text
    remove_node at (symlink name) watches = watches
    remove_node at (file name info) watches = watches
    remove_node at (folder name info inside) watches =
        let path = join (at ∷ name ∷ []) in remove_listing path inside (without path watches)

    pub remove_listing : Text → Listing → List Text → List Text
    remove_listing at unlisted watches = watches
    remove_listing at listing_end watches = watches
    remove_listing at (listed node rest) watches =
        remove_listing at rest (remove_node at node watches)

  -- `removeRecursive`, which returns no error.
  unfoldable pub remove_root : Text → LocalRoot → List Text → List Text
  unfolding remove_node
  remove_root root no_access watches = watches
  remove_root root root_symlink watches = watches
  remove_root root root_file watches = watches
  remove_root root (root_folder inside) watches = remove_listing root inside (without root watches)

  abbrev pub unwatch_found : Text → Option Profile → Watcher → Bool × Watcher
  unwatch_found name none w = (false, w)
  unwatch_found name (some profile) w = (
    true,
    record w {
      profiles = erase name w.profiles;
      context_depths = erase name w.context_depths;
      watches = remove_root profile.context (o.tree profile.context) w.watches;
    },
  )

  -- `Unwatch`; false where it returns an error.
  unfoldable pub unwatch : Text → Watcher → Bool × Watcher
  unfolding lookup erase remove_root
  unwatch name w = unwatch_found name (lookup name w.profiles) w
