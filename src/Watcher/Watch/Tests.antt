-- ===== src/Watcher/Watch/Tests.antt =====
-- Runs of internal/watcher/watcher.go.
use sfync.Base.{ℕ, ◌≤◌, ◌≡◌, refl, ◌↔◌, ◌⊎◌, ◌≢◌, Text, codes, none, [], ◌∷◌}
use sfync.Base.{false, if◌then◌else◌, ◌==◌, text_eq, nat_eq, ℤ_eq}
use sfync.Base.Dict.{lookup, insert}
use sfync.Base.Paths.{clean}
use sfync.Config.{Profile}
use sfync.Ignore.{missing}
use sfync.Transfer.Remote.{file, folder, listed, listing_end, Listing, root_folder}
use sfync.Transfer.Mirror.Sync.Tests.{site, glob}
use sfync.Watcher.Watch.{
  Outside, regular_file, Watcher, new_watcher, watch, unwatch, find_matching_profiles, escapes_base,
}
use sfync.Watcher.Watch.Unwatching.{Has, InListing, unwatch_takes}
use sfync.Watcher.Watch.Contexts.{IsTracked, watch-IsTracked, new_watcher-IsTracked}
use sfync.Watcher.Watch.Matching.{Covers, find_matching_profiles_iff}

abbrev pub inside : Listing
inside = listed (file (codes "a") none) (listed (folder (codes "web") none listing_end) listing_end)

abbrev pub outside : Outside
outside = record {
  tree = λ p. root_folder (if p == codes "/p" then inside else listing_end);
  kind = λ p. regular_file;
  missing_dir = λ p. false;
  rel = λ at p. none;
  refuses = λ p. false;
  ignore_file = λ p. missing;
}

abbrev pub whole : Profile
whole = record site { context = codes "/p" }

abbrev pub web : Profile
web = record site { context = codes "/p/web" }

-- A profile for a directory, and one for a directory in it.
abbrev both : Watcher
both =
    (watch outside glob (codes "web") web
      (watch outside glob (codes "project") whole new_watcher).1).1

find_matching_profiles_test : find_matching_profiles (codes "/p/web/x") both ≡ codes "web" ∷ []
unfolding find_matching_profiles watch new_watcher text_eq nat_eq ℤ_eq
find_matching_profiles_test = refl

escapes_base_test : escapes_base (codes "..env") ≡ false
unfolding escapes_base text_eq nat_eq
escapes_base_test = refl

both-IsTracked : IsTracked both
both-IsTracked =
    watch-IsTracked outside glob (codes "web") web
      (watch outside glob (codes "project") whole new_watcher).1
      (watch-IsTracked outside glob (codes "project") whole new_watcher new_watcher-IsTracked)

find_matching_profiles_iff_example :
    Has (codes "web") (find_matching_profiles (codes "/p/web/x") both) ↔ (
      (depth : ℕ) × Covers both (codes "/p/web/x") (codes "web") depth
      × ((n : Text) (d : ℕ) → Covers both (codes "/p/web/x") n d → d ≤ depth))
find_matching_profiles_iff_example =
    find_matching_profiles_iff (codes "/p/web/x") both (codes "web") both-IsTracked

unwatch_takes_example :
    let w = (unwatch outside glob (codes "project") both).1 in
    ((p : Text) → (p ≡ codes "/p") ⊎ InListing p (codes "/p") inside → ¬ Has p w.watches)
    × ((other : Text)
        → codes "project" ≢ other
        → lookup other w.profiles ≡ lookup other both.profiles)
unfolding watch new_watcher lookup insert clean text_eq nat_eq
unwatch_takes_example = unwatch_takes outside glob both (codes "project") whole inside refl refl
