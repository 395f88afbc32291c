-- ===== src/Transfer/Mirror/Sync/Tests.antt =====
-- Runs of `MirrorUp` and `MirrorDown` of internal/transfer/mirror.go.
use sfync.Base.{
  ℕ, ◌+◌, ◌-◌, ◌*◌, ◌%◌, ◌≡◌, refl, Text, codes, none, some, List, [], ◌∷◌, true, false,
}
use sfync.Base.{if◌then◌else◌, ltb, length, nat_eq, text_eq, pos, bool_eq}
use sfync.Base.Dict.{Dict}
use sfync.Config.{Profile}
use sfync.Ignore.{Matcher, missing}
use sfync.Transfer.Types.{FileInfo, RemoteFileInfo}
use sfync.Transfer.Client.{Error, library}
use sfync.Transfer.Remote.{
  RemoteClient, ok, err, Disk, symlink, file, listed, listing_end, root_folder, no_access,
  root_symlink,
}
use sfync.Transfer.Mirror.Diff.{diff_trees}
use sfync.Transfer.Mirror.Scan.{walk_local}
use sfync.Transfer.Mirror.Scan.Remote.{walk_remote}
use sfync.Transfer.Mirror.Scan.Hazards.{Deletes, unlisted_root-Deletes, lost_root-Deletes}
use sfync.Transfer.Types.{action_upload}
use sfync.Transfer.Mirror.Diff.{plain}
use sfync.Transfer.Mirror.Execute.{on_upload}
use sfync.Transfer.Mirror.Transfers.{TransferJob, jobs_for, run_transfers}
use sfync.Transfer.Mirror.Transfers.Workers.{Reports, run_transfers-Reports}
use sfync.Transfer.Mirror.Sync.{no_result}

abbrev pub failure : Error
failure =
    library (record { text = codes "550"; not_exist = true; deadline = false; reply = some 550 })

abbrev folder_s : RemoteFileInfo
folder_s = record {
  name = codes "s";
  path = [];
  size = 0;
  mod_time = 0;
  is_dir = true;
  mode = 493;
  mod_time_precision = 0;
}

-- A server of which a directory with a short name holds a directory s. It takes no file, and counts
-- the requests.
abbrev pub server : RemoteClient ℕ
server = record {
  connect = λ w. (none, w + 1);
  close = λ w. w;
  is_alive = λ w. (true, w + 1);
  stat = λ p w. (ok folder_s, w + 1);
  read_dir = λ p w. (ok (if ltb (length p) 3 then folder_s ∷ [] else []), w + 1);
  upload = λ p q w. (some failure, w + 1);
  upload_resume = λ p q w. (none, w + 1);
  download = λ p q w. (none, w + 1);
  mkdir = λ p w. (some failure, w + 1);
  mkdir_all = λ p w. (none, w + 1);
  remove = λ p w. (some failure, w + 1);
  remove_dir = λ p w. (none, w + 1);
  supports_concurrent = true;
  download_known = none;
}

-- The same, of which no directory can be listed.
abbrev closed : RemoteClient ℕ
closed = record server { read_dir = λ p w. (err failure, w + 1) }

abbrev small : FileInfo
small = record { size = 1; mod_time = 1; is_dir = false }

abbrev disk : Disk ℕ
disk = record {
  make_dirs = λ p w. (none, w + 1);
  remove_path = λ p w. (some failure, w + 1);
  tree = λ p w.
      root_folder
        (listed (symlink (codes "l")) (listed (file (codes "a") (some small)) listing_end));
  ignore_file = λ p w. missing;
  ignore_error = λ p w. failure;
}

abbrev pub glob : Matcher
glob p path = false

abbrev pub site : Profile
site = record {
  host = codes "h";
  username = codes "u";
  password = codes "p";
  ssh_key = [];
  port = pos 22;
  protocol = codes "sftp";
  remote_path = codes "/r";
  context = codes "/c";
  auto_sync = false;
  auto_sync_debounce = pos 0;
  auto_sync_deletes = false;
  verify_host_key = none;
  ftp_connections = pos 8;
  tls_ca_cert = [];
}

abbrev local : Dict Text FileInfo
local = (codes "a", small) ∷ (codes "d", record small { is_dir = true }) ∷ []

abbrev remote : Dict Text RemoteFileInfo
remote = (codes "s", folder_s) ∷ (codes "f", record folder_s { is_dir = false }) ∷ []

-- A scheduler with a pattern of its own.
abbrev pub sched : ℕ → ℕ → ℕ
sched w n = (n * 3 + w) % 5

abbrev size : Text → ℕ
size dir = 9 - length dir

unlisted_root-Deletes_example :
    (walk_remote glob [] closed sched 1 (codes "/r") 0 ≡ some ([], 1))
    × ((l : Dict Text FileInfo) → Deletes (λ v. v.is_dir) l (diff_trees l [] false))
unlisted_root-Deletes_example =
    unlisted_root-Deletes glob [] closed sched 0 (codes "/r") failure 0 1 refl

lost_root-Deletes_example :
    Deletes (λ r. r.is_dir) remote (diff_trees (walk_local glob [] no_access) remote true)
    × Deletes (λ r. r.is_dir) remote (diff_trees (walk_local glob [] root_symlink) remote true)
lost_root-Deletes_example = lost_root-Deletes glob [] remote

-- Two uploads, by two workers; the server refuses both.
abbrev two_jobs : List (TransferJob ℕ)
two_jobs =
    jobs_for (plain action_upload (codes "a") ∷ plain action_upload (codes "b") ∷ [])
      (λ a w. server.upload a.rel_path a.rel_path w)

run_transfers-Reports_example :
    Reports server on_upload two_jobs no_result
      (run_transfers server on_upload sched two_jobs no_result 0).0
run_transfers-Reports_example = run_transfers-Reports server on_upload sched two_jobs no_result 0

-- Both errors are kept.
run_transfers_test : length (run_transfers server on_upload sched two_jobs no_result 0).0.errors ≡ 2
unfolding run_transfers on_upload nat_eq text_eq jobs_for
run_transfers_test = refl
