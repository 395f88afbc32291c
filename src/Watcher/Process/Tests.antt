-- ===== src/Watcher/Process/Tests.antt =====
-- Runs of `processUpload` of internal/watcher/queue.go.
use sfync.Base.{ℕ, ◌+◌, ◌≡◌, refl, Text, codes, some, [], ◌∷◌, true, false, text_eq, nat_eq}
use sfync.Base.Dict.{Dict, lookup}
use sfync.Config.{Profile}
use sfync.Ignore.{missing}
use sfync.Transfer.Remote.{ok}
use sfync.Transfer.Mirror.Sync.Tests.{server, site, failure, glob}
use sfync.Watcher.Flight.{UploadTask}
use sfync.Watcher.Process.{
  Surroundings, regular, Work, process_upload, acquired, uploading, released, failed,
}
use sfync.Watcher.Process.Leases.{Fair, wants_deletes, process_upload-Fair}

-- The pool gives a lease at once, and the file is there; the server takes no file.
abbrev around : Surroundings ℕ
around = record {
  acquire = λ name w. (ok server, w + 1);
  release = λ e w. w;
  stat_file = λ p w. regular 3;
  has_context = λ p w. true;
  pause = λ time w. (false, w + 1);
  absolute = λ p. some p;
  ignore_file = λ p w. missing;
}

abbrev profiles : Dict Text Profile
profiles = (codes "p", site) ∷ []

abbrev task : UploadTask
task = record { profile_name = codes "p"; file_path = codes "/c/a" }

abbrev start : Work ℕ
start = record { known_dirs = []; log = []; world = 0 }

-- Three attempts fail.
process_upload_test :
    (process_upload around glob profiles task start).log
    ≡ failed (codes "a") failure 3
      ∷ released (some failure)
      ∷ uploading
      ∷ acquired
      ∷ released (some failure)
      ∷ uploading
      ∷ acquired
      ∷ released (some failure)
      ∷ uploading
      ∷ acquired
      ∷ []
unfolding process_upload lookup nat_eq text_eq
process_upload_test = refl

process_upload-Fair_example :
    Fair 0 1
      (wants_deletes (lookup (codes "p") profiles))
      start.log
      (process_upload around glob profiles task start).log
process_upload-Fair_example = process_upload-Fair around glob profiles task start
