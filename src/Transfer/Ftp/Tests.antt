-- ===== src/Transfer/Ftp/Tests.antt =====
-- Uploads over FTP, and the times of listings, at concrete values: internal/transfer/ftp.go.
use sfync.Base.{
  ℕ, ◌+◌, ◌*◌, ◌≡◌, refl, ap, ◌∙◌, Text, codes, Option, none, some, List, [], ◌∷◌, ◌++◌, true,
  false, length, nat_eq, text_eq,
}
use sfync.Transfer.Remote.{Answer, ok, err}
use sfync.Transfer.Views.{Makes}
use sfync.Transfer.Atomic.{LocalFile}
use sfync.Transfer.Store.{
  Files, World, set, set_same, set_other, remote, failure, move, move-Renames, delete,
  delete-Removes, on_remote, remote-Renames, remote-Removes, append,
}
use sfync.Transfer.Ftp.{entry_file, FtpEntry, Connection, upload_on}
use sfync.Transfer.Ftp.Upload.{IsServer, Sizes}
use sfync.Transfer.Ftp.Delivery.{Delivers, upload_on-Delivers}
use sfync.Transfer.Ftp.Clock.{
  minute, hour, new_list_offset, detect_list_offset, to_remote, tells_nothing, list_time_precision,
}
use sfync.Transfer.Ftp.Clock.Offset.{detect_list_offset-to_remote}

abbrev size_of : World → Option (List ℕ) → Answer ℕ × World
size_of w none = (err (failure true), w)
size_of w (some c) = (ok (length c), w)

-- A server in Calcutta that lists times to the minute; every file has the same time.
abbrev noon : ℕ
noon = 60_000 * hour + 12 * hour + 31 * minute + 5_000_000_000

abbrev connection : Connection World
connection = record {
  path_error = λ e. false;
  time_precise_in_list = false;
  get_time_supported = true;
  set_time_supported = true;
  get_entry = λ p w. (err (failure true), w);
  list = λ p w. (ok [], w);
  file_size = λ p w. size_of w (w.0 p);
  get_time = λ p w. (ok noon, w);
  set_time = λ p time w. (none, w);
  seek_local = λ n w. (none, w);
  stor = λ p bytes w. (none, (set p (some bytes) w.0, w.1));
  stor_from = λ p n bytes w. on_remote w.1 (append p bytes w.0 (w.0 p));
  retr = λ p w. (err (failure true), w);
  finish_retr = λ w. (none, w);
  rename = λ p q w. on_remote w.1 (move p q w.0 (w.0 p));
  delete = λ p w. on_remote w.1 (delete p w.0 (w.0 p));
  make_dir = λ p w. (none, w);
  remove_dir = λ p w. (none, w);
  current_dir = λ w. (ok (codes "/"), w);
  change_dir = λ p w. (none, w);
}

connection-IsServer : IsServer connection remote
connection-IsServer = record {
  size_law = λ p w. sizes w (w.0 p) p refl;
  get_time_law = λ p w q. refl;
  set_time_law = λ p time w q. refl;
  seek_law = λ n w q. refl;
  stor_law = λ p bytes w. ((λ q a. set_other p (some bytes) w.0 q a), set_same p (some bytes) w.0);
  stor_from_law = λ p before bytes w e. appends p before bytes w.0 w.1 (w.0 p) e;
  rename_law = λ p q apart w.
      remote-Renames p q w.0 w.1 (move p q w.0 (w.0 p)) (move-Renames p q apart w.0 (w.0 p) refl);
  delete_law =
      λ p w. remote-Removes p w.0 w.1 (delete p w.0 (w.0 p)) (delete-Removes p w.0 (w.0 p));
}
  where
    sizes :
        (w : World) (o : Option (List ℕ)) (p : Text) → w.0 p ≡ o → Sizes remote p w (size_of w o)
    sizes w none p e = (λ q. refl)
    sizes w (some c) p e = ((λ q. refl), (c, e, refl))

    appends :
        (p : Text) (before bytes : List ℕ) (f g : Files) (o : Option (List ℕ))
        → o ≡ some before
        → Makes remote p (before ++ bytes) (f, g) (on_remote g (append p bytes f o))
    appends p before bytes f g none e = absurd (cc)
    appends p before bytes f g (some c) e =
        let now = some (c ++ bytes) in
        (
          (λ q a. set_other p now f q a),
          set_same p now f ∙ ap (λ o. elim o [ none ↦ none | some l ↦ some (l ++ bytes) ]) e,
        )

abbrev five : LocalFile
five = record { content = 1 ∷ 2 ∷ 3 ∷ 4 ∷ 5 ∷ []; size = 5; mod_time = 7; mode = 420 }

-- Two bytes of an upload that was broken off.
abbrev start : World
start = ((λ p. set (codes "/w/.a.sfync-part") (some (1 ∷ 2 ∷ [])) (λ _. none) p), (λ p. none))

upload_on-Delivers_example :
    Delivers connection remote connection-IsServer five
      (codes "/w/a")
      true
      start
      (upload_on connection (codes "resume") five (codes "/w/a") true start)
upload_on-Delivers_example =
    upload_on-Delivers connection remote connection-IsServer (codes "resume") five (codes "/w/a")
      true start

uploaded_test :
    remote (upload_on connection (codes "resume") five (codes "/w/a") true start).1 (codes "/w/a")
    ≡ some (1 ∷ 2 ∷ 3 ∷ 4 ∷ 5 ∷ [])
unfolding upload_on text_eq nat_eq
uploaded_test = refl

abbrev entry : FtpEntry
entry = record {
  name = codes "a";
  entry_type = entry_file;
  size = 5;
  time = 60_000 * hour + 18 * hour + 1 * minute;
}

not_old : tells_nothing connection (noon + hour) new_list_offset entry ≡ false
unfolding list_time_precision nat_eq
not_old = refl

detect_list_offset-to_remote_example :
    ((detect_list_offset connection (noon + hour) (codes "/w/a") entry new_list_offset start).0
      ≡ true)
    × ((to_remote connection noon
          (detect_list_offset connection (noon + hour) (codes "/w/a") entry new_list_offset start).1
          entry).mod_time
        ≡ 60_000 * hour + 12 * hour + 31 * minute)
detect_list_offset-to_remote_example =
    detect_list_offset-to_remote connection refl (noon + hour) noon (codes "/w/a") entry entry
      new_list_offset start start true 22 noon noon refl refl refl refl refl not_old refl refl refl
