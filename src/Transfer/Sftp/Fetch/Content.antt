-- ===== src/Transfer/Sftp/Fetch/Content.antt =====
-- internal/transfer/sftp.go, downloads: what stands at the local path.
use sfync.Base.{ℕ, ◌≡◌, ◌≢◌, refl, sym, ap, ◌∙◌, ◌⊎◌, inl, inr, Text, Option, none, some}
use sfync.Base.{
  List, ◌++◌, Bool, true, false, leb, if◌then◌else◌, length, drop, take-drop, take, take-length,
  codes,
}
use sfync.Transfer.Client.{Error}
use sfync.Transfer.Remote.{Answer, ok, err}
use sfync.Transfer.Views.{View, Same}
use sfync.Transfer.Atomic.{LocalDisk, LocalFile, Source, write_local_atomic, remote_partial_path}
use sfync.Transfer.Atomic.Commit.{IsDisk, write_local_atomic-Committed}
use sfync.Transfer.Sftp.{Session, upload_on, wrap}
use sfync.Transfer.Sftp.Server.{IsServer}
use sfync.Transfer.Sftp.Upload.{upload_on-Outcome}
use sfync.Transfer.Swap.{Sent}
use sfync.Transfer.Sftp.Fetch.{
  no_finish, wrap_download, store, store_small, after_open_read, download_on,
}

module _ {W : Type 0} (remote local : View W) where
  abbrev pub Quiet : W → W → Type 0
  Quiet w w' = Same remote w w' × Same local w w'

  -- One READ yields at most so many bytes, from the start.
  abbrev pub ReadsAt : Text → ℕ → W → Answer (List ℕ) × W → Type 0
  ReadsAt p n w (ok bytes, w') =
      Quiet w w' × ((c : List ℕ) → remote w p ≡ some c → bytes ≡ take n c)
  ReadsAt p n w (err e, w') = Quiet w w'

  -- A reader that ends without an error has yielded the whole file.
  abbrev pub ReadsAll : Text → W → Source × W → Type 0
  ReadsAll p w (src, w') =
      Quiet w w' × ((c : List ℕ) → remote w p ≡ some c → src.failure ≡ none → src.bytes ≡ c)

-- What is asked of a session that only reads.
pub record IsReader {W : Type 0} (s : Session W) (remote local : View W) : Type 0 where
  pub open_law : (p : Text) (w : W) → Quiet remote local w (s.open_read p w).1
  pub read_at_law : (p : Text) (n : ℕ) (w : W) → ReadsAt remote local p n w (s.read_at p n w)
  pub read_all_law : (p : Text) (w : W) → ReadsAll remote local p w (s.read_all p w)

-- What a download of so many bytes yields: one READ of them if they fit in a packet, else all.
abbrev pub downloaded : ℕ → ℕ → List ℕ → List ℕ
downloaded packet size all = if leb size packet then take size all else all

downloaded_all : (packet : ℕ) (all : List ℕ) → downloaded packet (length all) all ≡ all
downloaded_all packet all =
    elim (leb (length all) packet) as (λ b. (if b then take (length all) all else all) ≡ all) [
      | true ↦ take-length all
      | false ↦ refl
    ]

module _ {W : Type 0} (s : Session W) (d : LocalDisk W) (remote local : View W)
    (reader : IsReader s remote local) (disk : IsDisk d local) where
  -- The local file is as it was or has the expected content; it has that without an error, and then
  -- no other file is changed.
  abbrev pub Fetched : Text → List ℕ → W → Option Error × W → Type 0
  Fetched dst c w r =
      ((local r.1 dst ≡ local w dst) ⊎ (local r.1 dst ≡ some c))
      × ((q : Text) → q ≢ dst → local w q ≢ none → local r.1 q ≡ local w q)
      × (r.0 ≡ none → (local r.1 dst ≡ some c) × ((q : Text) → q ≢ dst → local r.1 q ≡ local w q))

  module _ (dst : Text) (c : List ℕ) (mtime : ℕ) where
    failed : (w w' : W) (e : Error) → Quiet remote local w w' → Fetched dst c w (some e, w')
    failed w w' e (_, same) = (inl (same dst), (λ q _ _. same q), (λ h. cc))

    wrapped-Fetched :
        (w : W) (r : Option Error × W) → Fetched dst c w r → Fetched dst c w (wrap_download s d r)
    wrapped-Fetched w (none, w') h = h
    wrapped-Fetched w (some e, w') (kept, other, done) = (kept, other, (λ h. cc))

    stored :
        (w : W) (src : Source) (w' : W)
        → Quiet remote local w w'
        → (src.failure ≡ none → src.bytes ≡ c)
        → Fetched dst c w (store s d dst mtime (src, w'))
    stored w src w' (_, same) expected =
        let r = write_local_atomic d (no_finish s d) dst src mtime w' in
        let (other, kept, done) =
          write_local_atomic-Committed d local disk (no_finish s d) (λ v q. refl) dst src mtime
            w' in
        wrapped-Fetched w r (
          elim kept [
            | inl k ↦ inl (k ∙ same dst)
            | inr (well, k) ↦ inr (k ∙ ap (λ l. some l) (expected well))
          ],
          (λ q a there. other q a (λ e. there (sym (same q) ∙ e)) ∙ same q),
          (λ h.
              let (well, full, rest) = done h in
              (full ∙ ap (λ l. some l) (expected well), (λ q a. rest q a ∙ same q))),
        )

    read_small :
        (p : Text) (size : ℕ) (all : List ℕ) (w w1 : W) (r : Answer (List ℕ) × W)
        → take size all ≡ c
        → Quiet remote local w w1
        → remote w p ≡ some all
        → ReadsAt remote local p size w1 r
        → Fetched dst c w (store_small s d dst mtime r)
    read_small p size all w w1 (ok bytes, w2) expected quiet found (more, read) =
        stored w (record { bytes = bytes; failure = none }) w2
          ((λ q. more.0 q ∙ quiet.0 q), (λ q. more.1 q ∙ quiet.1 q))
          (λ _. read all (quiet.0 p ∙ found) ∙ expected)
    read_small p size all w w1 (err e, w2) expected quiet found more =
        failed w w2 (wrap (codes "download") e)
          ((λ q. more.0 q ∙ quiet.0 q), (λ q. more.1 q ∙ quiet.1 q))

    reads :
        (p : Text) (packet size : ℕ) (all : List ℕ) (w : W) (r : Option Error × W)
        → downloaded packet size all ≡ c
        → Quiet remote local w r.1
        → remote w p ≡ some all
        → Fetched dst c w (after_open_read s d packet p dst size mtime r)
    reads p packet size all w (some e, w1) expected quiet found =
        failed w w1 (wrap (codes "download") e) quiet
    reads p packet size all w (none, w1) expected quiet found = by_size (leb size packet) expected
      where
        by_size :
            (b : Bool)
            → (if b then take size all else all) ≡ c
            → Fetched dst c w (
                if b
                then store_small s d dst mtime (s.read_at p size w1)
                else store s d dst mtime (s.read_all p w1))
        by_size true e =
            read_small p size all w w1 (s.read_at p size w1) e quiet found
              (reader.read_at_law p size w1)
        by_size false e =
            let (src, w2) = s.read_all p w1 in
            let (more, read) = reader.read_all_law p w1 in
            stored w src w2 ((λ q. more.0 q ∙ quiet.0 q), (λ q. more.1 q ∙ quiet.1 q))
              (λ well. read all (quiet.0 p ∙ found) well ∙ e)

  -- A download of a remote file leaves the local file as it was or with the content (at most the
  -- listed size of it, where that fits in a packet), and leaves all other files that are there;
  -- without an error the local file has that content, and no temporary file stays.
  pub download_on-Fetched :
      (packet : ℕ) (p dst : Text) (size mtime : ℕ) (all : List ℕ) (w : W)
      → remote w p ≡ some all
      → Fetched dst (downloaded packet size all) w (download_on s d packet p dst size mtime w)
  unfolding download_on
  download_on-Fetched packet p dst size mtime all w found =
      let c = if leb size packet then take size all else all in
      reads dst c mtime p packet size all w (s.open_read p w) refl (reader.open_law p w) found

  Sent-Whole :
      (p : Text) (resume : Bool) (sent : LocalFile) (w : W) (complete : List ℕ)
      → Sent remote (remote_partial_path p) resume sent w complete
      → ((old : List ℕ)
          → remote w (remote_partial_path p) ≡ some old
          → resume ≡ true
          → old ≡ take (length old) sent.content)
      → complete ≡ sent.content
  Sent-Whole p resume sent w complete (inl whole) prefix = whole
  Sent-Whole p resume sent w complete (inr (may, (old, found, fits, whole))) prefix =
      whole
      ∙ ap (λ l. l ++ drop (length old) sent.content) (prefix old found may)
      ∙ take-drop (length old) sent.content

  -- What an upload sends, a download brings back: if an upload succeeds (where it continues a partial
  -- file, one with the start of the file), and then a download of as many bytes succeeds, the file at
  -- the local path has the content of the file that was sent.
  pub download_on-upload_on :
      (server : IsServer s remote) (op : Text) (sent : LocalFile) (p dst : Text) (resume : Bool)
      (packet mtime : ℕ) (w w1 w2 : W)
      → ((old : List ℕ)
          → remote w (remote_partial_path p) ≡ some old
          → resume ≡ true
          → old ≡ take (length old) sent.content)
      → upload_on s op sent p resume w ≡ (none, w1)
      → download_on s d packet p dst (length sent.content) mtime w1 ≡ (none, w2)
      → local w2 dst ≡ some sent.content
  download_on-upload_on server op sent p dst resume packet mtime w w1 w2 prefix up down =
      let (complete, how, (_, _, done)) = upload_on-Outcome s remote server op sent p resume w in
      let found : remote w1 p ≡ some sent.content =
        ap (λ r. remote r.1 p) (sym up)
        ∙ done (ap (λ r. r.0) up)
        ∙ ap (λ l. some l) (Sent-Whole p resume sent w complete how prefix) in
      let (_, _, whole) =
        download_on-Fetched packet p dst (length sent.content) mtime sent.content w1 found in
      let (full, _) = whole (ap (λ r. r.0) down) in
      ap (λ r. local r.1 dst) (sym down)
      ∙ full
      ∙ ap (λ l. some l) (downloaded_all packet sent.content)
