-- ===== src/Transfer/Atomic/Commit.antt =====
-- internal/transfer/atomic.go, `writeLocalAtomic`: what stands at the local path.
use sfync.Base.{ℕ, ◌+◌, ◌≡◌, ◌≢◌, refl, sym, ap, ◌∙◌, ◌⊎◌, inl, inr, Text, Option, none, some}
use sfync.Base.{
  List, [], ◌++◌, true, false, leb, if◌then◌else◌, ◌==◌, nat_eq, text_eq, length, length-append,
  arith, codes,
}
use sfync.Base.Paths.{dir, base}
use sfync.Transfer.Client.{Error}
use sfync.Transfer.Remote.{Answer, ok, err}
use sfync.Transfer.Views.{
  View, Same, SameBut, Renames, Removes, Makes, Removes-SameBut, Makes-SameBut, Makes-content,
  Closes, Closes-SameBut, Closes-content,
}
use sfync.Transfer.Atomic.{
  LocalDisk, Source, partial_suffix, mode_or_default, first, give_up, after_rename, after_chmod,
  after_write, after_copy, copy_in, after_create, write_local_atomic,
}

module _ {W : Type 0} (view : View W) where
  -- `os.CreateTemp`: a file that was not there, the `*` of whose pattern is a random text.
  abbrev pub Creates : Text → W → Answer Text × W → Type 0
  Creates pattern w (ok temp, w') =
      SameBut view temp w w'
      × (view w temp ≡ none)
      × (view w' temp ≡ some [])
      × (leb (length pattern) (length (base temp) + 1) ≡ true)
  Creates pattern w (err e, w') = Same view w w'

-- What is asked of a local disk on which nobody else writes.
pub record IsDisk {W : Type 0} (d : LocalDisk W) (view : View W) : Type 0 where
  pub create_temp_law :
      (at pattern : Text) (w : W) → Creates view pattern w (d.create_temp at pattern w)
  pub write_law :
      (p : Text) (c bytes : List ℕ) (w : W)
      → view w p ≡ some c
      → Makes view p (c ++ bytes) w (d.write_bytes p bytes w)
  pub close_law : (p : Text) (w : W) → Closes view p w (d.close p w)
  pub chmod_law : (p : Text) (mode : ℕ) (w : W) → Same view w (d.chmod p mode w).1
  pub chtimes_law : (p : Text) (time : ℕ) (w : W) → Same view w (d.chtimes p time w).1
  pub rename_law : (p q : Text) → p ≢ q → (w : W) → Renames view p q w (d.rename p q w)
  pub remove_law : (p : Text) (w : W) → Removes view p w (d.remove p w)

module _ {W : Type 0} (d : LocalDisk W) (view : View W) (disk : IsDisk d view)
    (finish : W → Option Error × W) (quiet : (w : W) → Same view w (finish w).1) where
  -- The file at the local path is as it was, or has all that a source yielded that did not fail.
  abbrev pub Kept : Text → Source → W → W → Type 0
  Kept dst src w0 w =
      (view w dst ≡ view w0 dst) ⊎ ((src.failure ≡ none) × (view w dst ≡ some src.bytes))

  abbrev pub Committed : Text → Source → W → Option Error × W → Type 0
  Committed dst src w0 r =
      ((q : Text) → q ≢ dst → view w0 q ≢ none → view r.1 q ≡ view w0 q)
      × Kept dst src w0 r.1
      × (r.0 ≡ none
          → (src.failure ≡ none)
            × (view r.1 dst ≡ some src.bytes)
            × ((q : Text) → q ≢ dst → view r.1 q ≡ view w0 q))

  module _ (dst temp : Text) (apart : temp ≢ dst) (src : Source) (mtime : ℕ) where
    abbrev Elsewhere : W → W → Type 0
    Elsewhere w0 w = (q : Text) → q ≢ temp → q ≢ dst → view w q ≡ view w0 q

    abbrev Ends : W → Option Error × W → Type 0
    Ends w0 (e, w) =
        Elsewhere w0 w
        × Kept dst src w0 w
        × (e ≡ none → (src.failure ≡ none) × (view w dst ≡ some src.bytes) × (view w temp ≡ none))

    abbrev Ready : W → W → Type 0
    Ready w0 w = SameBut view temp w0 w × (view w temp ≡ some src.bytes) × (src.failure ≡ none)

    gives_up :
        (w0 w : W) (e : Error)
        → Elsewhere w0 w
        → Kept dst src w0 w
        → Ends w0 (give_up d finish temp e w)
    gives_up w0 w e other kept =
        let gone = Removes-SameBut view temp w (d.remove temp w) (disk.remove_law temp w) in
        let still : view (d.remove temp w).1 dst ≡ view w dst = gone dst (λ e. apart (sym e)) in
        (
          (λ q a b. gone q a ∙ other q a b),
          elim kept [ inl k ↦ inl (still ∙ k) | inr (f, k) ↦ inr (f, still ∙ k) ],
          (λ h. cc),
        )

    stops : (w0 w : W) (e : Error) → SameBut view temp w0 w → Ends w0 (give_up d finish temp e w)
    stops w0 w e same = gives_up w0 w e (λ q a _. same q a) (inl (same dst (λ e. apart (sym e))))

    renamed :
        (w0 w : W) (r : Option Error × W)
        → Ready w0 w
        → Renames view temp dst w r
        → Ends w0 (after_rename d finish temp r)
    renamed w0 w (none, w') (same, ready, well) (_, moved) = (
      (λ q a b. moved.2 q a b ∙ same q a),
      inr (well, moved.0 ∙ ready),
      (λ _. (well, moved.0 ∙ ready, moved.1)),
    )
    renamed w0 w (some e, w') (same, ready, well) (inl still) =
        stops w0 w' e (λ q a. still q ∙ same q a)
    renamed w0 w (some e, w') (same, ready, well) (inr moved) =
        gives_up w0 w' e (λ q a b. moved.2 q a b ∙ same q a) (inr (well, moved.0 ∙ ready))

    Ready-on : (w0 w w' : W) → Ready w0 w → Same view w w' → Ready w0 w'
    Ready-on w0 w w' (same, ready, well) still =
        ((λ q a. still q ∙ same q a), still temp ∙ ready, well)

    timed : (w : W) → W
    timed w = if mtime == 0 then w else (d.chtimes temp mtime w).1

    timed-Same : (w : W) → Same view w (timed w)
    unfolding timed
    timed-Same w =
        elim (mtime == 0) as (λ b. Same view w (if b then w else (d.chtimes temp mtime w).1)) [
          | true ↦ (λ q. refl)
          | false ↦ disk.chtimes_law temp mtime w
        ]

    moded :
        (w0 w : W) (r : Option Error × W)
        → Ready w0 w
        → Same view w r.1
        → Ends w0 (after_chmod d finish temp dst mtime r)
    unfolding timed
    moded w0 w (none, w1) ready still =
        let same : Same view w (timed w1) = λ q. timed-Same w1 q ∙ still q in
        renamed w0 (timed w1) (d.rename temp dst (timed w1)) (Ready-on w0 w (timed w1) ready same)
          (disk.rename_law temp dst apart (timed w1))
    moded w0 w (some e, w1) (same, _, _) still = stops w0 w1 e (λ q a. still q ∙ same q a)

    written :
        (w0 w : W) (e : Option Error)
        → SameBut view temp w0 w
        → (e ≡ none → Ready w0 w)
        → Ends w0 (after_write d finish temp dst mtime e w)
    written w0 w none same ready =
        let mode = mode_or_default (d.regular_mode dst w) in
        moded w0 w (d.chmod temp mode w) (ready refl) (disk.chmod_law temp mode w)
    written w0 w (some e) same ready = stops w0 w e same

    first-none : (a b : Option Error) → first a b ≡ none → (a ≡ none) × (b ≡ none)
    first-none none b e = (refl, e)
    first-none (some x) b e = absurd (cc)

    copied :
        (w0 : W) (r : Option Error × W)
        → SameBut view temp w0 r.1
        → (r.0 ≡ none → Ready w0 r.1)
        → Ends w0 (after_copy d finish temp dst mtime r)
    copied w0 (e, w) same ready =
        let (finished, w1) = finish w in
        let (closed, w2) = d.close temp w1 in
        let law = disk.close_law temp w1 in
        written w0 w2 (first (first e finished) closed)
          (λ q a. Closes-SameBut view temp w1 (d.close temp w1) law q a ∙ quiet w q ∙ same q a)
          (λ h.
            let (h', whole) = first-none (first e finished) closed h in
            let (done, _) = first-none e finished h' in
            let (_, found, well) = ready done in
            (
              (λ q a. Closes-SameBut view temp w1 (d.close temp w1) law q a ∙ quiet w q ∙ same q a),
              Closes-content view temp w1 (d.close temp w1) law whole ∙ quiet w temp ∙ found,
              well,
            ))

    filled :
        (w0 w : W)
        → SameBut view temp w0 w
        → view w temp ≡ some []
        → Ends w0 (after_copy d finish temp dst mtime (copy_in d finish temp src w))
    filled w0 w same empty =
        let r = d.write_bytes temp src.bytes w in
        let law = disk.write_law temp [] src.bytes w empty in
        let frame : SameBut view temp w0 r.1 =
          λ q a. Makes-SameBut view temp src.bytes w r law q a ∙ same q a in
        copied w0 (copy_in d finish temp src w) frame (λ h.
          let (done, well) = first-none r.0 src.failure h in
          (frame, Makes-content view temp src.bytes w r law done, well))

  -- A name behind the pattern of the temporary file is longer than that of the file.
  longer :
      (dst temp : Text)
      → leb
          (length (codes "." ++ (base dst ++ (codes ".*" ++ partial_suffix))))
          (length (base temp) + 1)
        ≡ true
      → temp ≢ dst
  longer dst temp long e =
      ground (
        arith,
        length-append (base dst) (codes ".*" ++ partial_suffix),
        ap (λ p. length (base p)) e,
      )

  opens :
      (dst : Text) (src : Source) (mtime : ℕ) (w0 : W) (r : Answer Text × W)
      → Creates view (codes "." ++ (base dst ++ (codes ".*" ++ partial_suffix))) w0 r
      → Committed dst src w0 (after_create d finish dst src mtime r)
  opens dst src mtime w0 (err e, w) same =
      ((λ q _ _. quiet w q ∙ same q), inl (quiet w dst ∙ same dst), (λ h. cc))
  opens dst src mtime w0 (ok temp, w) (same, fresh, empty, long) =
      let (other, kept, done) = filled dst temp (longer dst temp long) src mtime w0 w same empty in
      (
        (λ q a there. other q (λ e. there (ap (view w0) e ∙ fresh)) a),
        kept,
        (λ h.
            let (well, full, gone) = done h in
            (
              well,
              full,
              (λ q a. elim (text_eq.dec q temp) [
                | yes e ↦
                    ap (view (after_copy d finish temp dst mtime (copy_in d finish temp src w)).1) e
                    ∙ gone
                    ∙ sym (ap (view w0) e ∙ fresh)
                | no n ↦ other q n a
              ]),
            )),
      )

  -- Whatever fails, the file at the local path stays as it was or has all that a source yielded that
  -- did not fail, and no other file that was there changes; without an error it has all that the
  -- source yielded, and no file is left behind.
  pub write_local_atomic-Committed :
      (dst : Text) (src : Source) (mtime : ℕ) (w : W)
      → Committed dst src w (write_local_atomic d finish dst src mtime w)
  unfolding write_local_atomic
  write_local_atomic-Committed dst src mtime w =
      let pattern = codes "." ++ (base dst ++ (codes ".*" ++ partial_suffix)) in
      opens dst src mtime w (d.create_temp (dir dst) pattern w)
        (disk.create_temp_law (dir dst) pattern w)
