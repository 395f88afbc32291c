-- ===== src/Watcher/Watch/Events.antt =====
-- internal/watcher/watcher.go: what the watcher does with an event of fsnotify.
use sfync.Base.{Text, Option, none, some, [], ◌∷◌, Bool, true, false, not, ◌&&◌, ◌||◌}
use sfync.Base.{if◌then◌else◌, ◌==◌, text_eq}
use sfync.Base.Dict.{Dict}
use sfync.Base.Paths.{join, dir, base}
use sfync.Config.{Profile}
use sfync.Ignore.{Matcher, own_name, should_ignore}
use sfync.Transfer.Remote.{
  LocalNode, symlink, file, folder, Listing, unlisted, listing_end, listed, LocalRoot, no_access,
  root_symlink, root_file, root_folder,
}
use sfync.Transfer.Mirror.Scan.{is_partial_name}
use sfync.Watcher.Watch.{
  Outside, FileKind, vanished, directory, link, regular_file, special_file, Watcher, escapes_base,
  get_patterns, invalidate_patterns, schedule,
}

-- `fsnotify.Event`, with the bits of its Op.
pub record Event : Type 0 where
  pub name : Text
  pub write : Bool
  pub create : Bool
  pub remove : Bool
  pub rename : Bool

module _ (o : Outside) (glob : Matcher) where
  -- What the loop of `watchedByAnyProfile` does with a relative path, and how it goes on.
  abbrev pub or_else : Bool → Watcher → (Watcher → Bool × Watcher) → Bool × Watcher
  or_else true w rest = (true, w)
  or_else false w rest = rest w

  abbrev pub consider : Text → Option Text → Watcher → Bool × Watcher
  consider context none w = (false, w)
  consider context (some rel) w =
      let (patterns, w') = get_patterns o glob context w in
      if escapes_base rel then (false, w) else (not (should_ignore glob patterns rel), w')

  unfoldable pub watched_loop : Text → Dict Text Profile → Watcher → Bool × Watcher
  unfolding get_patterns should_ignore escapes_base
  watched_loop dir_path [] w = (false, w)
  watched_loop dir_path ((name, profile) ∷ profiles) w =
      let (found, w') = consider profile.context (o.rel profile.context dir_path) w in
      or_else found w' (watched_loop dir_path profiles)

  -- `watchedByAnyProfile`
  unfoldable pub watched_by_any_profile : Text → Watcher → Bool × Watcher
  unfolding watched_loop
  watched_by_any_profile dir_path w = watched_loop dir_path w.profiles w

  -- `fsWatcher.Add`, whose error is dropped.
  abbrev pub add_quietly : Text → Watcher → Watcher
  add_quietly path w = if o.refuses path then w else record w { watches = path ∷ w.watches }

  abbrev pub when_regular : Text → FileKind → Watcher → Watcher
  when_regular path regular_file w = schedule path w
  when_regular path _ w = w

  unfoldable mutual
    unfolding watched_by_any_profile schedule join

    -- The function of `watchNewDir`, on what is below its root.
    pub new_node : Text → LocalNode → Watcher → Watcher
    new_node at (symlink name) w = w
    new_node at (file name info) w =
        let path = join (at ∷ name ∷ []) in when_regular path (o.kind path) w
    new_node at (folder name info inside) w =
        let path = join (at ∷ name ∷ []) in
        let (wanted, w') = watched_by_any_profile path w in
        let below = new_listing path inside (add_quietly path w') in if wanted then below else w'

    pub new_listing : Text → Listing → Watcher → Watcher
    new_listing at unlisted w = w
    new_listing at listing_end w = w
    new_listing at (listed node rest) w = new_listing at rest (new_node at node w)

  -- `watchNewDir`
  unfoldable pub watch_new_dir : Text → LocalRoot → Watcher → Watcher
  unfolding new_node
  watch_new_dir path no_access w = w
  watch_new_dir path root_symlink w = w
  watch_new_dir path root_file w = when_regular path (o.kind path) w
  watch_new_dir path (root_folder inside) w =
      let (wanted, w') = watched_by_any_profile path w in
      if wanted then new_listing path inside (add_quietly path w') else w'

  -- `handleEvent`, by what `os.Lstat` says.
  unfoldable pub handle_event : Event → FileKind → Watcher → Watcher
  unfolding watch_new_dir schedule
  handle_event event vanished w = w
  handle_event event directory w =
      if event.create then watch_new_dir event.name (o.tree event.name) w else w
  handle_event event link w = w
  handle_event event regular_file w = schedule event.name w
  handle_event event special_file w = schedule event.name w

  -- The body of the loop of `Start`.
  unfoldable pub on_event : Event → Watcher → Watcher
  unfolding handle_event invalidate_patterns schedule dir base is_partial_name
  on_event event w =
      let fresh =
        if base event.name == own_name && (event.write || event.create)
        then invalidate_patterns o glob (dir event.name) w
        else w in
      if event.write || event.create
      then handle_event event (o.kind event.name) fresh
      else if event.remove || event.rename
      then (if is_partial_name (base event.name) then fresh else schedule event.name fresh)
      else fresh
