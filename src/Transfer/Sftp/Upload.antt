-- ===== src/Transfer/Sftp/Upload.antt =====
-- internal/transfer/sftp.go, `upload`: what becomes of the file on the server.
use sfync.Base.{ℕ, ◌≡◌, ◌≢◌, refl, sym, ap, ◌∙◌, subst, inl, inr, Text, Option, none, some}
use sfync.Base.{
  List, [], ◌++◌, Bool, true, false, ltb, leb, if◌then◌else◌, ◌==◌, nat_eq, length, drop, arith,
}
use sfync.Transfer.Client.{Error}
use sfync.Transfer.Remote.{Answer, ok, err}
use sfync.Transfer.Views.{
  View, Same, SameBut, Makes, Removes-SameBut, Makes-SameBut, Makes-content, Closes-SameBut,
  Closes-content, overwrite, overwrite_end,
}
use sfync.Transfer.Atomic.{LocalFile, can_resume_partial, remote_partial_path}
use sfync.Transfer.Atomic.Partial.{remote_partial_path-ne}
use sfync.Transfer.Sftp.{
  Entry, Session, sftp_replace, offset_of, resume_offset, abandon, after_replace, after_close,
  closing, after_copy, after_seek, after_open, upload_from, upload_on, wrap,
}
use sfync.Transfer.Sftp.Server.{IsServer, Stats, or_empty}
use sfync.Transfer.Sftp.Replace.{sftp_replace-Outcome}
use sfync.Transfer.Swap.{Sent, Outcome, Ready, failed-Outcome}

module _ {W : Type 0} (s : Session W) (view : View W) (server : IsServer s view) where
  module _ (partial target : Text) (apart : partial ≢ target) (complete : List ℕ) (op : Text)
      (resume : Bool) (local : LocalFile) where
    Ends : W → Option Error × W → Type 0
    Ends = Outcome view (s.posix_rename_extension ≡ false) partial target apart complete

    -- Nothing is changed but the partial file, which is complete unless there is an error.
    abbrev Loaded : W → Option Error × W → Type 0
    Loaded w0 (e, w) = SameBut view partial w0 w × (e ≡ none → view w partial ≡ some complete)

    removed :
        (w0 w : W) → SameBut view partial w0 w → SameBut view partial w0 (s.remove partial w).1
    removed w0 w same q a =
        Removes-SameBut view partial w (s.remove partial w) (server.remove_law partial w) q a
        ∙ same q a

    fails : (w0 w : W) (e : Error) → SameBut view partial w0 w → Ends w0 (some e, w)
    unfolding Ends
    fails w0 w e same =
        failed-Outcome view (s.posix_rename_extension ≡ false) partial target apart complete w0 w e
          same

    abandoned :
        (w0 w : W) (e : Error)
        → SameBut view partial w0 w
        → Ends w0 (abandon s op resume local partial e w)
    abandoned w0 w e same =
        fails w0 (if resume then w else (s.remove partial w).1) (wrap op e)
          (elim resume as (λ b. SameBut view partial w0 (if b then w else (s.remove partial w).1)) [
            | true ↦ same
            | false ↦ removed w0 w same
          ])

    -- An outcome whose failure is followed by the removal of the partial file.
    replaced :
        (w0 : W) (r : Option Error × W)
        → Ends w0 r
        → Ends w0 (after_replace s op resume local partial r)
    unfolding Ends
    replaced w0 (none, w) ends = ends
    replaced w0 (some e, w) (other, stands, done) =
        let gone =
          Removes-SameBut view partial w (s.remove partial w) (server.remove_law partial w) in
        let kept : view (s.remove partial w).1 target ≡ view w target =
          gone target (λ e. apart (sym e)) in
        (
          (λ q a b. gone q a ∙ other q a b),
          elim stands [
            | inl k ↦ inl (kept ∙ k)
            | inr (inl (p, g)) ↦ inr (inl (p, kept ∙ g))
            | inr (inr f) ↦ inr (inr (kept ∙ f))
          ],
          (λ h. cc),
        )

    closed :
        (w0 w : W) (e : Option Error)
        → Loaded w0 (e, w)
        → Ends w0 (after_close s op resume local partial target e w)
    unfolding Ends
    closed w0 w none (same, ready) =
        replaced w0 (sftp_replace s partial target w)
          (sftp_replace-Outcome s view server partial target apart complete w0 w (same, ready refl))
    closed w0 w (some e) (same, ready) = abandoned w0 w e same

    closing-Ends :
        (w0 w : W)
        → Ready view (s.posix_rename_extension ≡ false) partial target apart complete w0 w
        → Ends w0 (closing s op resume local partial target w)
    closing-Ends w0 w (same, ready) =
        let (e, w1) = s.close partial w in
        let w2 = (s.chmod partial local.mode w1).1 in
        let w3 = (s.chtimes partial local.mod_time w2).1 in
        let still : Same view w1 w3 = λ q.
          server.chtimes_law partial local.mod_time w2 q
          ∙ server.chmod_law partial local.mode w1 q in
        let law = server.close_law partial w in
        closed w0 w3 e (
          (λ q a. still q ∙ Closes-SameBut view partial w (s.close partial w) law q a ∙ same q a),
          (λ h. still partial ∙ Closes-content view partial w (s.close partial w) law h ∙ ready),
        )

    copied :
        (w0 : W) (r : Option Error × W)
        → Loaded w0 r
        → Ends w0 (after_copy s op resume local partial target r)
    copied w0 (none, w) (same, ready) = closing-Ends w0 w (same, ready refl)
    copied w0 (some e, w) (same, ready) = abandoned w0 (s.close partial w).1 e (λ q a.
        Closes-SameBut view partial w (s.close partial w) (server.close_law partial w) q a
        ∙ same q a)

    -- A file with what comes before the offset, and what is to be sent behind it.
    abbrev Open : W → ℕ → W → Type 0
    Open w0 offset w =
        SameBut view partial w0 w
        × ((before : List ℕ) × (view w partial ≡ some before)
            × (length before ≡ offset)
            × (complete ≡ before ++ drop offset local.content))

    sought :
        (w0 : W) (offset : ℕ) (r : Option Error × W)
        → Open w0 offset r.1
        → Ends w0 (after_seek s op resume local partial target offset r)
    sought w0 offset (none, w) (same, (before, found, long, whole)) =
        let bytes = drop offset local.content in
        let r = s.copy partial offset bytes w in
        let law = server.copy_law partial offset bytes before w found in
        let full : overwrite offset bytes before ≡ complete =
          subst (λ n. overwrite n bytes before ≡ before ++ bytes) long (overwrite_end bytes before)
          ∙ sym whole in
        copied w0 r (
          (λ q a.
              Makes-SameBut view partial (overwrite offset bytes before) w r law q a ∙ same q a),
          (λ h.
              Makes-content view partial (overwrite offset bytes before) w r law h
              ∙ ap (λ c. some c) full),
        )
    sought w0 offset (some e, w) (same, _) = copied w0 (some e, w) (same, (λ h. cc))

    -- What stands in the partial file once it is open.
    abbrev pub start : ℕ → W → List ℕ
    start offset w = if offset == 0 then [] else or_empty (view w partial)

    -- The offset is that of what is in the partial file.
    abbrev pub Starts : ℕ → W → Type 0
    Starts offset w =
        (length (start offset w) ≡ offset)
        × (complete ≡ start offset w ++ drop offset local.content)

    opening :
        (w0 : W) (offset : ℕ) (w : W) (r : Option Error × W)
        → SameBut view partial w0 w
        → Starts offset w
        → Makes view partial (start offset w) w r
        → Ends w0 (after_open s op resume local partial target offset r)
    opening w0 offset w (none, w1) same (long, whole) (other, made) =
        let r = if ltb 0 offset then s.seek_local offset w1 else (none, w1) in
        let still : Same view w1 r.1 =
          elim (ltb 0 offset)
            as (λ b. Same view w1 (if b then s.seek_local offset w1 else (none, w1)).1) [
              | true ↦ server.seek_law offset w1
              | false ↦ (λ q. refl)
            ] in
        sought w0 offset r (
          (λ q a. still q ∙ other q a ∙ same q a),
          (start offset w, still partial ∙ made, long, whole),
        )
    opening w0 offset w (some e, w1) same starts other =
        fails w0 w1 (wrap op e) (λ q a. other q a ∙ same q a)

    pub upload_from-Outcome :
        (w0 : W) (offset : ℕ) (w : W)
        → SameBut view partial w0 w
        → Starts offset w
        → Outcome view
            (s.posix_rename_extension ≡ false)
            partial
            target
            apart
            complete
            w0
            (upload_from s op resume local partial target (offset, w))
    unfolding Ends
    upload_from-Outcome w0 offset w same starts =
        opening w0 offset w (s.open_file partial (offset == 0) w) same starts
          (server.open_law partial (offset == 0) w)

  abbrev Uploads : Text → Text → Bool → LocalFile → W → Option Error × W → Type 0
  Uploads partial target resume local w0 r =
      (apart : partial ≢ target)
      → (complete : List ℕ) × Sent view partial resume local w0 complete
        × Outcome view (s.posix_rename_extension ≡ false) partial target apart complete w0 r

  starts_afresh :
      (op partial target : Text) (resume : Bool) (local : LocalFile) (w0 w : W)
      → SameBut view partial w0 w
      → Uploads partial target resume local w0 (upload_from s op resume local partial target (0, w))
  unfolding nat_eq
  starts_afresh op partial target resume local w0 w same apart = (
    local.content,
    inl refl,
    upload_from-Outcome partial target apart local.content op resume local w0 0 w same (refl, refl),
  )

  continued :
      (n : ℕ) (o : Option (List ℕ)) (old : List ℕ)
      → ltb 0 n ≡ true
      → o ≡ some old
      → (if n == 0 then [] else or_empty o) ≡ old
  unfolding nat_eq
  continued n none old positive found = absurd (cc)
  continued n (some c) old positive found = ground (arith)

  resumes :
      (size mod_time : ℕ) (local : LocalFile)
      → can_resume_partial size mod_time local ≡ true
      → (ltb 0 size ≡ true) × (leb size local.size ≡ true)
  unfolding can_resume_partial
  resumes size mod_time local may = (ground (arith), ground (arith))

  from_answer :
      (op partial target : Text) (local : LocalFile) (w0 : W) (r : Answer Entry × W)
      → Stats view partial w0 r
      → Uploads partial target true local w0
          (upload_from s op true local partial target (offset_of s local r.0, r.1))
  from_answer op partial target local w0 (err e, w) same =
      starts_afresh op partial target true local w0 w (λ q _. same q)
  from_answer op partial target local w0 (ok info, w) (same, (old, found, long)) =
      by_test (can_resume_partial info.size info.mod_time local) refl
    where
      by_test :
          (b : Bool)
          → can_resume_partial info.size info.mod_time local ≡ b
          → Uploads partial target true local w0
              (upload_from s op true local partial target (if b then info.size else 0, w))
      by_test false _ apart = starts_afresh op partial target true local w0 w (λ q _. same q) apart
      by_test true may apart =
          let whole = old ++ drop (length old) local.content in
          let (positive, fits) = resumes info.size info.mod_time local may in
          let there : (if info.size == 0 then [] else or_empty (view w partial)) ≡ old =
            continued info.size (view w partial) old positive (same partial ∙ found) in
          (
            whole,
            inr (refl, (old, found, subst (λ n. leb n local.size ≡ true) (sym long) fits, refl)),
            upload_from-Outcome partial target apart whole op true local w0 info.size w
                (λ q _. same q)
                (
                  ap length there ∙ long,
                  subst (λ n. old ++ drop (length old) local.content ≡ old ++ drop n local.content)
                        long refl
                      ∙ ap (λ l. l ++ drop info.size local.content) (sym there),
                ),
          )

  -- What is promised of an upload, for the content that it leaves.
  abbrev pub Delivers : LocalFile → Text → Bool → W → Option Error × W → Type 0
  Delivers local remote_path resume w r =
      (complete : List ℕ) × Sent view (remote_partial_path remote_path) resume local w complete
      × Outcome view (s.posix_rename_extension ≡ false) (remote_partial_path remote_path)
          remote_path (remote_partial_path-ne remote_path) complete w r

  -- An upload, whether it fails or not, changes no file but the partial one and the target. The
  -- target stays as it was or has the complete content (or, on a server without the extension
  -- posix-rename, is missing); without an error it has the complete content.
  pub upload_on-Outcome :
      (op : Text) (local : LocalFile) (remote_path : Text) (resume : Bool) (w : W)
      → Delivers local remote_path resume w (upload_on s op local remote_path resume w)
  unfolding upload_on resume_offset
  upload_on-Outcome op local remote_path false w =
      starts_afresh op (remote_partial_path remote_path) remote_path false local w w (λ q _. refl)
        (remote_partial_path-ne remote_path)
  upload_on-Outcome op local remote_path true w =
      let partial = remote_partial_path remote_path in
      from_answer op partial remote_path local w (s.stat partial w) (server.stat_law partial w)
        (remote_partial_path-ne remote_path)
