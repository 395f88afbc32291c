-- ===== src/Transfer/Sftp/Replace.antt =====
-- internal/transfer/sftp.go, `sftpReplace`: what stands at the target.
use sfync.Base.{ℕ, ◌≡◌, ◌≢◌, refl, Text, Option, none, some}
use sfync.Base.{List, Bool, true, false, if◌then◌else◌}
use sfync.Transfer.Client.{Error}
use sfync.Transfer.Views.{View, Renames}
use sfync.Transfer.Swap.{
  Outcome, Ready, Cleared, Renames-Outcome, failed-Tried, cleared, second-Outcome,
}
use sfync.Transfer.Sftp.Server.{IsServer}
use sfync.Transfer.Sftp.{Session, missing_only, after_remove, after_rename, sftp_replace}

module _ {W : Type 0} (s : Session W) (view : View W) (server : IsServer s view) where
  module _ (partial target : Text) (apart : partial ≢ target) (complete : List ℕ) where
    abbrev Ends : W → Option Error × W → Type 0
    Ends = Outcome view (s.posix_rename_extension ≡ false) partial target apart complete

    module _ (plain : s.posix_rename_extension ≡ false) where
      after_remove-Outcome :
          (w0 : W) (r : Option Error × W)
          → Cleared view
              (s.posix_rename_extension ≡ false)
              partial
              target
              apart
              complete
              plain
              w0
              r.1
          → Ends w0 (after_remove s partial target r)
      after_remove-Outcome w0 (none, w) clear =
          second-Outcome view (s.posix_rename_extension ≡ false) partial target apart complete plain
            w0 w (s.rename partial target w) clear (server.rename_law partial target apart w)
      after_remove-Outcome w0 (some e, w) clear =
          elim (missing_only e)
            as (λ b. Ends w0 (if b then s.rename partial target w else (some e, w))) [
              | true ↦
                  second-Outcome view (s.posix_rename_extension ≡ false) partial target apart
                    complete plain w0 w (s.rename partial target w) clear
                    (server.rename_law partial target apart w)
              | false ↦ (clear.0, clear.1, (λ h. cc))
            ]

      after_rename-Outcome :
          (w0 w : W) (r : Option Error × W)
          → Ready view (s.posix_rename_extension ≡ false) partial target apart complete w0 w
          → Renames view partial target w r
          → Ends w0 (after_rename s partial target r)
      after_rename-Outcome w0 w (none, w') ready renames =
          Renames-Outcome view (s.posix_rename_extension ≡ false) partial target apart complete w0 w
            (none, w') ready renames
      after_rename-Outcome w0 w (some e, w') ready renames =
          let gone = s.remove target w' in
          after_remove-Outcome w0 gone (
            cleared view (s.posix_rename_extension ≡ false) partial target apart complete plain w0
              w' gone
              (failed-Tried view (s.posix_rename_extension ≡ false) partial target apart complete w0
                w w' e ready renames)
              (server.remove_law target w'))

    pub sftp_replace-Outcome :
        (w0 w : W)
        → Ready view (s.posix_rename_extension ≡ false) partial target apart complete w0 w
        → Outcome view
            (s.posix_rename_extension ≡ false)
            partial
            target
            apart
            complete
            w0
            (sftp_replace s partial target w)
    unfolding sftp_replace
    sftp_replace-Outcome w0 w ready = by_extension s.posix_rename_extension refl
      where
        by_extension :
            (b : Bool)
            → s.posix_rename_extension ≡ b
            → Ends w0 (
                if b
                then s.posix_rename partial target w
                else after_rename s partial target (s.rename partial target w))
        by_extension true has =
            Renames-Outcome view (s.posix_rename_extension ≡ false) partial target apart complete w0
              w (s.posix_rename partial target w) ready
              (server.posix_rename_law partial target apart w)
        by_extension false plain =
            after_rename-Outcome plain w0 w (s.rename partial target w) ready
              (server.rename_law partial target apart w)
