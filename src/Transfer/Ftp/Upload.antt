-- ===== src/Transfer/Ftp/Upload.antt =====
-- internal/transfer/ftp.go, `upload`: what becomes of the file on the server.
use sfync.Base.{ℕ, ◌≡◌, ◌≢◌, refl, sym, ◌∙◌, inl, inr, Text, Option, none, some}
use sfync.Base.{List, ◌++◌, Bool, true, false, ◌||◌, if◌then◌else◌, length}
use sfync.Transfer.Client.{Error}
use sfync.Transfer.Remote.{Answer, ok, err}
use sfync.Transfer.Views.{View, Same, SameBut, Renames, Removes, Removes-SameBut, Makes}
use sfync.Transfer.Swap.{
  Outcome, Ready, failed-Outcome, Renames-Outcome, failed-Tried, cleared, second-Outcome,
}
use sfync.Transfer.Atomic.{LocalFile}
use sfync.Transfer.Ftp.{
  Connection, broken, after_rename, ftp_replace, after_swap, timed, after_stor, wrap,
}

module _ {W : Type 0} (view : View W) where
  abbrev pub Sizes : Text → W → Answer ℕ × W → Type 0
  Sizes p w (ok size, w') =
      Same view w w' × ((c : List ℕ) × (view w p ≡ some c) × (length c ≡ size))
  Sizes p w (err e, w') = Same view w w'

-- What is asked of a server that nobody else writes to: an operation touches the files it names,
-- it does what it says if it succeeds, and a rename or a removal that fails was done or was not.
pub record IsServer {W : Type 0} (c : Connection W) (view : View W) : Type 0 where
  pub size_law : (p : Text) (w : W) → Sizes view p w (c.file_size p w)
  pub get_time_law : (p : Text) (w : W) → Same view w (c.get_time p w).1
  pub set_time_law : (p : Text) (time : ℕ) (w : W) → Same view w (c.set_time p time w).1
  pub seek_law : (n : ℕ) (w : W) → Same view w (c.seek_local n w).1
  pub stor_law : (p : Text) (bytes : List ℕ) (w : W) → Makes view p bytes w (c.stor p bytes w)
  pub stor_from_law :
      (p : Text) (before bytes : List ℕ) (w : W)
      → view w p ≡ some before
      → Makes view p (before ++ bytes) w (c.stor_from p (length before) bytes w)
  pub rename_law : (p q : Text) → p ≢ q → (w : W) → Renames view p q w (c.rename p q w)
  pub delete_law : (p : Text) (w : W) → Removes view p w (c.delete p w)

module _ {W : Type 0} (c : Connection W) (view : View W) (server : IsServer c view) where
  module _ (partial target : Text) (apart : partial ≢ target) (complete : List ℕ) where
    -- As for SFTP, but the target may be missing on every server.
    abbrev pub Ends : W → Option Error × W → Type 0
    Ends = Outcome view Unit partial target apart complete

    after_rename-Outcome :
        (w0 w : W) (r : Option Error × W)
        → Ready view Unit partial target apart complete w0 w
        → Renames view partial target w r
        → Ends w0 (after_rename c partial target r)
    after_rename-Outcome w0 w (none, w') ready renames =
        Renames-Outcome view Unit partial target apart complete w0 w (none, w') ready renames
    after_rename-Outcome w0 w (some e, w') ready renames =
        let gone = c.delete target w' in
        elim (broken c e)
          as (λ b. Ends w0 (if b then (some e, w') else c.rename partial target gone.1)) [
            | true ↦
                Renames-Outcome view Unit partial target apart complete w0 w (some e, w') ready
                  renames
            | false ↦
                second-Outcome view Unit partial target apart complete tt w0 gone.1
                  (c.rename partial target gone.1)
                  (cleared view Unit partial target apart complete tt w0 w' gone
                    (failed-Tried view Unit partial target apart complete w0 w w' e ready renames)
                    (server.delete_law target w'))
                  (server.rename_law partial target apart gone.1)
          ]

    ftp_replace-Outcome :
        (w0 w : W)
        → Ready view Unit partial target apart complete w0 w
        → Ends w0 (ftp_replace c partial target w)
    unfolding ftp_replace
    ftp_replace-Outcome w0 w ready =
        after_rename-Outcome w0 w (c.rename partial target w) ready
          (server.rename_law partial target apart w)

    module _ (op : Text) (resume : Bool) (local : LocalFile) where
      pub fails : (w0 w : W) (e : Error) → SameBut view partial w0 w → Ends w0 (some e, w)
      fails w0 w e same = failed-Outcome view Unit partial target apart complete w0 w e same

      -- The partial file deleted, or not, behind an outcome that is a failure.
      deleted :
          (w0 w : W) (e e' : Error) (keep : Bool)
          → Ends w0 (some e, w)
          → Ends w0 (some e', if keep then w else (c.delete partial w).1)
      deleted w0 w e e' true (other, stands, _) = (other, stands, (λ h. cc))
      deleted w0 w e e' false (other, stands, _) =
          let gone =
            Removes-SameBut view partial w (c.delete partial w) (server.delete_law partial w) in
          let kept : view (c.delete partial w).1 target ≡ view w target =
            gone target (λ e. apart (sym e)) in
          (
            (λ q a b. gone q a ∙ other q a b),
            elim stands [
              | inl k ↦ inl (kept ∙ k)
              | inr (inl (p, g)) ↦ inr (inl (p, kept ∙ g))
              | inr (inr f) ↦ inr (inr (kept ∙ f))
            ],
            (λ h. cc),
          )

      swapped :
          (w0 : W) (r : Option Error × W)
          → Ends w0 r
          → Ends w0 (after_swap c op resume local partial target r)
      swapped w0 (none, w) ends = ends
      swapped w0 (some e, w) ends = deleted w0 w e (wrap op e) (broken c e) ends

      timed-Same : (w : W) → Same view w (timed c op resume local partial target w)
      timed-Same w =
          elim c.set_time_supported
            as (λ b. Same view w (if b then (c.set_time partial local.mod_time w).1 else w)) [
              | true ↦ server.set_time_law partial local.mod_time w
              | false ↦ (λ q. refl)
            ]

      pub stored :
          (w0 : W) (r : Option Error × W)
          → SameBut view partial w0 r.1
          → (r.0 ≡ none → view r.1 partial ≡ some complete)
          → Ends w0 (after_stor c op resume local partial target r)
      stored w0 (none, w) same found =
          let still = timed-Same w in
          let w1 = timed c op resume local partial target w in
          swapped w0 (ftp_replace c partial target w1)
            (ftp_replace-Outcome w0 w1 ((λ q a. still q ∙ same q a), still partial ∙ found refl))
      stored w0 (some e, w) same found =
          deleted w0 w e (wrap op e) (resume || broken c e) (fails w0 w e same)
