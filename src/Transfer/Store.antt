-- ===== src/Transfer/Store.antt =====
-- A world of two stores of files, one on a server and one on the local disk, for the tests. It models
-- no code of its own.
use sfync.Base.{ℕ, ◌+◌, ◌≡◌, ◌≢◌, refl, sym, ap, ◌∙◌, inl, Text, Option, none, some, codes}
use sfync.Base.{
  List, [], ◌++◌, Bool, true, false, leb, if◌then◌else◌, ◌==◌, text_eq, length, take, arith,
}
use sfync.Base.Paths.{base}
use sfync.Transfer.Client.{Error, library}
use sfync.Transfer.Remote.{Answer, ok, err}
use sfync.Transfer.Views.{View, Renames, Removes, Makes, overwrite}
use sfync.Transfer.Atomic.{LocalDisk}
use sfync.Transfer.Atomic.Commit.{IsDisk, Creates}
use sfync.Transfer.Sftp.{Entry, Session}
use sfync.Transfer.Sftp.Server.{IsServer, Stats, or_empty}
use sfync.Transfer.Sftp.Fetch.Content.{IsReader}

abbrev pub Files : Type 0
Files = Text → Option (List ℕ)

abbrev pub set : Text → Option (List ℕ) → Files → Files
set p c f q = if q == p then c else f q

pub set_same : (p : Text) (c : Option (List ℕ)) (f : Files) → set p c f p ≡ c
set_same p c f = ground (arith)

pub set_other : (p : Text) (c : Option (List ℕ)) (f : Files) (q : Text) → q ≢ p → set p c f q ≡ f q
set_other p c f q apart = ground (arith)

abbrev pub failure : Bool → Error
failure missing =
    library (record { text = codes "failure"; not_exist = missing; deadline = false; reply = none })

-- The operations of one store.
abbrev pub view : View Files
view f = f

abbrev pub move : Text → Text → Files → Option (List ℕ) → Option Error × Files
move p q f none = (some (failure true), f)
move p q f (some c) = (none, set q (some c) (set p none f))

pub move-Renames :
    (p q : Text)
    → p ≢ q
    → (f : Files) (o : Option (List ℕ)) → f p ≡ o
    → Renames view p q f (move p q f o)
move-Renames p q apart f none e = inl (λ x. refl)
move-Renames p q apart f (some c) e = (
  (c, e),
  (
    set_same q (some c) (set p none f) ∙ sym e,
    set_other q (some c) (set p none f) p apart ∙ set_same p none f,
    (λ x a b. set_other q (some c) (set p none f) x b ∙ set_other p none f x a),
  ),
)

-- A rename of SFTP version 3 refuses to overwrite.
abbrev move_new : Text → Text → Files → Option (List ℕ) → Option Error × Files
move_new p q f none = move p q f (f p)
move_new p q f (some c) = (some (failure false), f)

move_new-Renames :
    (p q : Text) → p ≢ q → (f : Files) (o : Option (List ℕ)) → Renames view p q f (move_new p q f o)
move_new-Renames p q apart f none = move-Renames p q apart f (f p) refl
move_new-Renames p q apart f (some c) = inl (λ x. refl)

abbrev pub delete : Text → Files → Option (List ℕ) → Option Error × Files
delete p f none = (some (failure true), f)
delete p f (some c) = (none, set p none f)

pub delete-Removes : (p : Text) (f : Files) (o : Option (List ℕ)) → Removes view p f (delete p f o)
delete-Removes p f none = ((λ q a. refl), inl refl)
delete-Removes p f (some c) = ((λ q a. set_other p none f q a), set_same p none f)

-- The world: the server's files, and the local ones.
abbrev pub World : Type 0
World = Files × Files

abbrev pub remote : View World
remote w = w.0

abbrev pub local : View World
local w = w.1

abbrev pub on_remote : {R : Type 0} → Files → R × Files → R × World
on_remote g (r, f) = (r, (f, g))

abbrev on_local : {R : Type 0} → Files → R × Files → R × World
on_local f (r, g) = (r, (f, g))

pub remote-Renames :
    (p q : Text) (f g : Files) (r : Option Error × Files)
    → Renames view p q f r
    → Renames remote p q (f, g) (on_remote g r)
remote-Renames p q f g (none, f') h = h
remote-Renames p q f g (some e, f') h = h

local-Renames :
    (p q : Text) (f g : Files) (r : Option Error × Files)
    → Renames view p q g r
    → Renames local p q (f, g) (on_local f r)
local-Renames p q f g (none, g') h = h
local-Renames p q f g (some e, g') h = h

pub remote-Removes :
    (p : Text) (f g : Files) (r : Option Error × Files)
    → Removes view p f r
    → Removes remote p (f, g) (on_remote g r)
remote-Removes p f g (none, f') h = h
remote-Removes p f g (some e, f') h = h

local-Removes :
    (p : Text) (f g : Files) (r : Option Error × Files)
    → Removes view p g r
    → Removes local p (f, g) (on_local f r)
local-Removes p f g (none, g') h = h
local-Removes p f g (some e, g') h = h

abbrev entry : ℕ → Entry
entry size = record {
  name = codes "x";
  size = size;
  mod_time = 9;
  is_dir = false;
  is_symlink = false;
  mode = 420;
}

abbrev found_entry : World → Option (List ℕ) → Answer Entry × World
found_entry w none = (err (failure true), w)
found_entry w (some c) = (ok (entry (length c)), w)

abbrev put : Text → ℕ → List ℕ → Files → Option (List ℕ) → Option Error × Files
put p n bytes f none = (some (failure true), f)
put p n bytes f (some c) = (none, set p (some (overwrite n bytes c)) f)

abbrev pub session : Session World
session = record {
  stat = λ p w. found_entry w (w.0 p);
  read_dir = λ p w. (ok [], w);
  open_file =
      λ p truncate w. (none, (set p (some (if truncate then [] else or_empty (w.0 p))) w.0, w.1));
  seek_local = λ n w. (none, w);
  copy = λ p n bytes w. on_remote w.1 (put p n bytes w.0 (w.0 p));
  close = λ p w. (none, w);
  chmod = λ p mode w. (none, w);
  chtimes = λ p time w. (none, w);
  posix_rename_extension = false;
  posix_rename = λ p q w. on_remote w.1 (move p q w.0 (w.0 p));
  rename = λ p q w. on_remote w.1 (move_new p q w.0 (w.0 q));
  remove = λ p w. on_remote w.1 (delete p w.0 (w.0 p));
  mkdir = λ p w. (none, w);
  remove_directory = λ p w. (none, w);
  open_read = λ p w. (none, w);
  read_at = λ p n w. (ok (take n (or_empty (w.0 p))), w);
  read_all = λ p w. (record { bytes = or_empty (w.0 p); failure = none }, w);
}

pub session-IsServer : IsServer session remote
session-IsServer = record {
  stat_law = λ p w. stats w (w.0 p) p refl;
  open_law = λ p truncate w.
      let c = some (if truncate then [] else or_empty (w.0 p)) in
      ((λ q a. set_other p c w.0 q a), set_same p c w.0);
  seek_law = λ n w q. refl;
  copy_law = λ p n bytes c w e. puts p n bytes w.0 w.1 (w.0 p) c e;
  close_law = λ p w q. refl;
  chmod_law = λ p mode w q. refl;
  chtimes_law = λ p time w q. refl;
  posix_rename_law = λ p q apart w.
      remote-Renames p q w.0 w.1 (move p q w.0 (w.0 p)) (move-Renames p q apart w.0 (w.0 p) refl);
  rename_law = λ p q apart w.
      remote-Renames p q w.0 w.1 (move_new p q w.0 (w.0 q))
        (move_new-Renames p q apart w.0 (w.0 q));
  remove_law =
      λ p w. remote-Removes p w.0 w.1 (delete p w.0 (w.0 p)) (delete-Removes p w.0 (w.0 p));
}
  where
    stats :
        (w : World) (o : Option (List ℕ)) (p : Text)
        → w.0 p ≡ o
        → Stats remote p w (found_entry w o)
    stats w none p e = (λ q. refl)
    stats w (some c) p e = ((λ q. refl), (c, e, refl))

    puts :
        (p : Text) (n : ℕ) (bytes : List ℕ) (f g : Files) (o : Option (List ℕ)) (c : List ℕ)
        → o ≡ some c
        → Makes remote p (overwrite n bytes c) (f, g) (on_remote g (put p n bytes f o))
    puts p n bytes f g none c e = absurd (cc)
    puts p n bytes f g (some c') c e =
        let now = some (overwrite n bytes c') in
        (
          (λ q a. set_other p now f q a),
          set_same p now f ∙ ap (λ o. some (overwrite n bytes (or_empty o))) e,
        )

pub session-IsReader : IsReader session remote local
session-IsReader = record {
  open_law = λ p w. ((λ q. refl), (λ q. refl));
  read_at_law = λ p n w. (((λ q. refl), (λ q. refl)), (λ c e. ap (λ o. take n (or_empty o)) e));
  read_all_law = λ p w. (((λ q. refl), (λ q. refl)), (λ c e well. ap or_empty e));
}

-- The temporary file is named by the pattern itself, if that is new and names a file.
abbrev create : Text → World → Option (List ℕ) → Bool → Answer Text × World
create pattern w none true = (ok pattern, (w.0, set pattern (some []) w.1))
create pattern w none false = (err (failure false), w)
create pattern w (some c) _ = (err (failure false), w)

create-Creates :
    (pattern : Text) (w : World) (o : Option (List ℕ)) (b : Bool)
    → w.1 pattern ≡ o
    → leb (length pattern) (length (base pattern) + 1) ≡ b
    → Creates local pattern w (create pattern w o b)
create-Creates pattern w none true e h =
    ((λ q a. set_other pattern (some []) w.1 q a), e, set_same pattern (some []) w.1, h)
create-Creates pattern w none false e h = (λ q. refl)
create-Creates pattern w (some c) true e h = (λ q. refl)
create-Creates pattern w (some c) false e h = (λ q. refl)

abbrev pub append : Text → List ℕ → Files → Option (List ℕ) → Option Error × Files
append p bytes f none = (some (failure true), f)
append p bytes f (some c) = (none, set p (some (c ++ bytes)) f)

append-Makes :
    (p : Text) (bytes c : List ℕ) (f g : Files) (o : Option (List ℕ))
    → o ≡ some c
    → Makes local p (c ++ bytes) (f, g) (on_local f (append p bytes g o))
append-Makes p bytes c f g none e = absurd (cc)
append-Makes p bytes c f g (some c') e =
    let now = some (c' ++ bytes) in
    ((λ q a. set_other p now g q a), set_same p now g ∙ ap (λ o. some (or_empty o ++ bytes)) e)

abbrev pub disk : LocalDisk World
disk = record {
  create_temp = λ at pattern w.
      create pattern w (w.1 pattern) (leb (length pattern) (length (base pattern) + 1));
  write_bytes = λ p bytes w. on_local w.0 (append p bytes w.1 (w.1 p));
  close = λ p w. (none, w);
  regular_mode = λ p w. none;
  chmod = λ p mode w. (none, w);
  chtimes = λ p time w. (none, w);
  rename = λ p q w. on_local w.0 (move p q w.1 (w.1 p));
  remove = λ p w. on_local w.0 (delete p w.1 (w.1 p));
}

pub disk-IsDisk : IsDisk disk local
disk-IsDisk = record {
  create_temp_law = λ at pattern w.
      create-Creates pattern w (w.1 pattern) (leb (length pattern) (length (base pattern) + 1)) refl
        refl;
  write_law = λ p c bytes w e. append-Makes p bytes c w.0 w.1 (w.1 p) e;
  close_law = λ p w q. refl;
  chmod_law = λ p mode w q. refl;
  chtimes_law = λ p time w q. refl;
  rename_law = λ p q apart w.
      local-Renames p q w.0 w.1 (move p q w.1 (w.1 p)) (move-Renames p q apart w.1 (w.1 p) refl);
  remove_law = λ p w. local-Removes p w.0 w.1 (delete p w.1 (w.1 p)) (delete-Removes p w.1 (w.1 p));
}
