-- ===== src/Transfer/Ftp/Delivery.antt =====
-- internal/transfer/ftp.go, `upload`: what is sent, with a partial file or without one.
use sfync.Base.{ℕ, ◌≡◌, ◌≢◌, refl, sym, ◌∙◌, subst, inl, inr, Text, Option, none, some}
use sfync.Base.{List, ◌++◌, Bool, true, false, ltb, leb, if◌then◌else◌, length, drop, arith}
use sfync.Transfer.Client.{Error}
use sfync.Transfer.Remote.{Answer, ok, err}
use sfync.Transfer.Views.{View, Same, SameBut, Makes-SameBut, Makes-content}
use sfync.Transfer.Swap.{Sent}
use sfync.Transfer.Atomic.{LocalFile, can_resume_partial, remote_partial_path}
use sfync.Transfer.Atomic.Partial.{remote_partial_path-ne}
use sfync.Transfer.Ftp.{
  Connection, broken, with_time, with_size, resume_offset, after_seek, send_all, after_rest,
  send_rest, upload_from, upload_on, wrap,
}
use sfync.Transfer.Ftp.Upload.{Sizes, IsServer, Ends, fails, stored}

module _ {W : Type 0} (c : Connection W) (view : View W) (server : IsServer c view) where
  abbrev DeliversTo : Text → Text → LocalFile → Bool → W → Option Error × W → Type 0
  DeliversTo partial target local resume w0 r =
      (apart : partial ≢ target)
      → (complete : List ℕ) × Sent view partial resume local w0 complete
        × Ends c view server partial target apart complete w0 r

  module _ (op : Text) (resume : Bool) (local : LocalFile) (partial target : Text) where
    abbrev Delivered : W → Option Error × W → Type 0
    Delivered = DeliversTo partial target local resume

    sent_all :
        (w0 w : W)
        → SameBut view partial w0 w
        → Delivered w0 (send_all c op resume local partial target w)
    sent_all w0 w same apart =
        (local.content, inl refl, sought (c.seek_local 0 w) (server.seek_law 0 w))
      where
        sought :
            (r : Option Error × W)
            → Same view w r.1
            → Ends c view server partial target apart local.content w0
                (after_seek c op resume local partial target r)
        sought (none, w1) still =
            let law = server.stor_law partial local.content w1 in
            let r = c.stor partial local.content w1 in
            stored c view server partial target apart local.content op resume local w0 r
              (λ q a. Makes-SameBut view partial local.content w1 r law q a ∙ still q ∙ same q a)
              (λ h. Makes-content view partial local.content w1 r law h)
        sought (some e, w1) still =
            stored c view server partial target apart local.content op resume local w0 (some e, w1)
              (λ q a. still q ∙ same q a) (λ h. absurd (cc))

    rest-Sent :
        (w0 : W) (whole : List ℕ) (r : Option Error × W)
        → Sent view partial resume local w0 whole
        → SameBut view partial w0 r.1
        → (r.0 ≡ none → view r.1 partial ≡ some whole)
        → Delivered w0 (after_rest c op resume local partial target r)
    rest-Sent w0 whole (none, w) sent same found = (λ apart. (
      whole,
      sent,
      stored c view server partial target apart whole op resume local w0 (none, w) same found,
    ))
    rest-Sent w0 whole (some e, w) sent same found =
        elim (broken c e)
          as (λ b.
            Delivered w0
              (if b then (some (wrap op e), w) else send_all c op resume local partial target w)) [
                | true ↦ (λ apart. (
                  local.content,
                  inl refl,
                  fails c view server partial target apart local.content op resume local w0 w
                      (wrap op e) same,
                ))
                | false ↦ sent_all w0 w same
              ]

    continued :
        (w0 w : W) (old : List ℕ)
        → SameBut view partial w0 w
        → view w partial ≡ some old
        → Sent view partial resume local w0 (old ++ drop (length old) local.content)
        → Delivered w0
            (send_rest c op resume local partial target (length old) (c.seek_local (length old) w))
    continued w0 w old same found sent =
        sought (c.seek_local (length old) w) (server.seek_law (length old) w)
      where
        bytes : List ℕ
        bytes = drop (length old) local.content

        sought :
            (r : Option Error × W)
            → Same view w r.1
            → Delivered w0 (send_rest c op resume local partial target (length old) r)
        sought (none, w1) still =
            let law = server.stor_from_law partial old bytes w1 (still partial ∙ found) in
            let r = c.stor_from partial (length old) bytes w1 in
            rest-Sent w0 (old ++ bytes) r sent
              (λ q a. Makes-SameBut view partial (old ++ bytes) w1 r law q a ∙ still q ∙ same q a)
              (λ h. Makes-content view partial (old ++ bytes) w1 r law h)
        sought (some e, w1) still =
            rest-Sent w0 (old ++ bytes) (some e, w1) sent (λ q a. still q ∙ same q a)
              (λ h. absurd (cc))

    from_size :
        (w0 w : W) (size : ℕ) (old : List ℕ)
        → SameBut view partial w0 w
        → view w partial ≡ some old
        → length old ≡ size
        → ltb 0 size ≡ true
        → Sent view partial resume local w0 (old ++ drop (length old) local.content)
        → Delivered w0 (upload_from c op resume local partial target (size, w))
    from_size w0 w size old same found long positive sent =
        subst
          (λ b. Delivered w0 (
            if b
            then send_rest c op resume local partial target size (c.seek_local size w)
            else send_all c op resume local partial target w))
          (sym positive)
          (subst
            (λ n. Delivered w0 (send_rest c op resume local partial target n (c.seek_local n w)))
            long (continued w0 w old same found sent))

  resumes :
      (size mod_time : ℕ) (local : LocalFile)
      → can_resume_partial size mod_time local ≡ true
      → (ltb 0 size ≡ true) × (leb size local.size ≡ true)
  unfolding can_resume_partial
  resumes size mod_time local may = (ground (arith), ground (arith))

  module _ (op : Text) (local : LocalFile) (partial target : Text) where
    with_answer :
        (w w1 w2 : W) (size : ℕ) (old : List ℕ) (answer : Answer ℕ)
        → Same view w w2
        → view w partial ≡ some old
        → length old ≡ size
        → DeliversTo partial target local true w
            (upload_from c op true local partial target (with_time c local size answer, w2))
    with_answer w w1 w2 size old (err e) same found long =
        sent_all op true local partial target w w2 (λ q a. same q)
    with_answer w w1 w2 size old (ok mtime) same found long =
        by_test (can_resume_partial size mtime local) refl
      where
        by_test :
            (b : Bool)
            → can_resume_partial size mtime local ≡ b
            → DeliversTo partial target local true w
                (upload_from c op true local partial target (if b then size else 0, w2))
        by_test false _ = sent_all op true local partial target w w2 (λ q a. same q)
        by_test true may =
            let (positive, fits) = resumes size mtime local may in
            from_size op true local partial target w w2 size old (λ q a. same q)
              (same partial ∙ found) long positive
              (inr (refl, (old, found, subst (λ n. leb n local.size ≡ true) (sym long) fits, refl)))

    with-Sizes :
        (w : W) (r : Answer ℕ × W)
        → Sizes view partial w r
        → DeliversTo partial target local true w
            (upload_from c op true local partial target (with_size c partial local r))
    with-Sizes w (err e, w1) same = sent_all op true local partial target w w1 (λ q a. same q)
    with-Sizes w (ok size, w1) (same, (old, found, long)) =
        let (answer, w2) = c.get_time partial w1 in
        with_answer w w1 w2 size old answer (λ q. server.get_time_law partial w1 q ∙ same q) found
          long

  -- What is promised of an upload, for the content that it leaves.
  abbrev pub Delivers : LocalFile → Text → Bool → W → Option Error × W → Type 0
  Delivers local remote_path resume w r =
      (complete : List ℕ) × Sent view (remote_partial_path remote_path) resume local w complete
      × Ends c view server (remote_partial_path remote_path) remote_path
          (remote_partial_path-ne remote_path) complete w r

  -- An upload over FTP, whether it fails or not, changes no file but the partial one and the target.
  -- The target stays as it was, has the complete content or is missing; without an error it has the
  -- complete content: that of the local file or, where a partial file is continued, what was in that
  -- and the rest of the local file.
  pub upload_on-Delivers :
      (op : Text) (local : LocalFile) (remote_path : Text) (resume : Bool) (w : W)
      → Delivers local remote_path resume w (upload_on c op local remote_path resume w)
  unfolding upload_on resume_offset
  upload_on-Delivers op local remote_path false w =
      sent_all op false local (remote_partial_path remote_path) remote_path w w (λ q a. refl)
        (remote_partial_path-ne remote_path)
  upload_on-Delivers op local remote_path true w =
      let partial = remote_partial_path remote_path in
      with-Sizes op local partial remote_path w (c.file_size partial w) (server.size_law partial w)
        (remote_partial_path-ne remote_path)
