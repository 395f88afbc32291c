-- ===== src/Transfer/Swap.antt =====
-- A partial file renamed over a target: what stands at the target, however the renames and the
-- removal of the target end. It models no code of its own; both clients replace a file like this.
use sfync.Base.{ℕ, ◌≡◌, ◌≢◌, sym, ◌∙◌, ◌⊎◌, inl, inr, Text, Option, none, some}
use sfync.Base.{List, Bool, true, nat_eq, arith}
use sfync.Base.{◌++◌, leb, length, drop}
use sfync.Transfer.Client.{Error}
use sfync.Transfer.Atomic.{LocalFile}
use sfync.Transfer.Views.{View, SameBut, Renames, Removes}

module _ {W : Type 0} (view : View W) where
  -- What a complete upload leaves: the local file, or, where a partial file is continued, what was in
  -- that and the rest of the local file.
  abbrev pub Sent : Text → Bool → LocalFile → W → List ℕ → Type 0
  Sent partial resume local w complete =
      (complete ≡ local.content)
      ⊎ ((resume ≡ true)
          × ((old : List ℕ) × (view w partial ≡ some old)
              × (leb (length old) local.size ≡ true)
              × (complete ≡ old ++ drop (length old) local.content)))

module _ {W : Type 0} (view : View W) (MayVanish : Type 0) where
  module _ (partial target : Text) (apart : partial ≢ target) (complete : List ℕ) where
    -- The target is as it was, or has the complete content; or it is gone, where that may happen.
    abbrev pub Stands : W → W → Type 0
    Stands w0 w =
        (view w target ≡ view w0 target)
        ⊎ (MayVanish × (view w target ≡ none))
        ⊎ (view w target ≡ some complete)

    abbrev pub Elsewhere : W → W → Type 0
    Elsewhere w0 w = (q : Text) → q ≢ partial → q ≢ target → view w q ≡ view w0 q

    abbrev pub Outcome : W → Option Error × W → Type 0
    Outcome w0 (e, w) = Elsewhere w0 w × Stands w0 w × (e ≡ none → view w target ≡ some complete)

    -- Ready for the rename.
    abbrev pub Ready : W → W → Type 0
    Ready w0 w = SameBut view partial w0 w × (view w partial ≡ some complete)

    pub target_kept : (w0 w : W) → SameBut view partial w0 w → view w target ≡ view w0 target
    target_kept w0 w same = same target (λ e. apart (sym e))

    pub failed-Outcome : (w0 w : W) (e : Error) → SameBut view partial w0 w → Outcome w0 (some e, w)
    failed-Outcome w0 w e same = ((λ q a b. same q a), inl (target_kept w0 w same), (λ h. cc))

    pub Renames-Outcome :
        (w0 w : W) (r : Option Error × W)
        → Ready w0 w
        → Renames view partial target w r
        → Outcome w0 r
    Renames-Outcome w0 w (none, w') (same, ready) (_, moved) =
        ((λ q a b. moved.2 q a b ∙ same q a), inr (inr (moved.0 ∙ ready)), (λ _. moved.0 ∙ ready))
    Renames-Outcome w0 w (some e, w') (same, ready) (inl still) =
        failed-Outcome w0 w' e (λ q a. still q ∙ same q a)
    Renames-Outcome w0 w (some e, w') (same, ready) (inr moved) =
        ((λ q a b. moved.2 q a b ∙ same q a), inr (inr (moved.0 ∙ ready)), (λ h. cc))

    -- Behind the first rename, which failed: it was done, or was not.
    abbrev pub Tried : W → W → Type 0
    Tried w0 w =
        Elsewhere w0 w
        × (((view w partial ≡ some complete) × (view w target ≡ view w0 target))
            ⊎ ((view w partial ≡ none) × (view w target ≡ some complete)))

    pub failed-Tried :
        (w0 w w' : W) (e : Error)
        → Ready w0 w
        → Renames view partial target w (some e, w')
        → Tried w0 w'
    failed-Tried w0 w w' e (same, ready) (inl still) = (
      (λ q a b. still q ∙ same q a),
      inl (still partial ∙ ready, still target ∙ target_kept w0 w same),
    )
    failed-Tried w0 w w' e (same, ready) (inr moved) =
        ((λ q a b. moved.2 q a b ∙ same q a), inr (moved.1, moved.0 ∙ ready))

    module _ (plain : MayVanish) where
      -- Behind the removal of the target.
      abbrev pub Cleared : W → W → Type 0
      Cleared w0 w =
          Elsewhere w0 w
          × Stands w0 w
          × ((view w partial ≡ some complete) ⊎ (view w partial ≡ none))

      pub cleared :
          (w0 w : W) (r : Option Error × W) → Tried w0 w → Removes view target w r → Cleared w0 r.1
      cleared w0 w (none, w') (other, tried) (same, no_target) = (
        (λ q a b. same q b ∙ other q a b),
        inr (inl (plain, no_target)),
        elim tried [
          | inl (p, t) ↦ inl (same partial apart ∙ p)
          | inr (p, t) ↦ inr (same partial apart ∙ p)
        ],
      )
      cleared w0 w (some e, w') (other, tried) (same, either) = (
        (λ q a b. same q b ∙ other q a b),
        elim either [
          | inr no_target ↦ inr (inl (plain, no_target))
          | inl still ↦ elim tried [
            | inl (p, t) ↦ inl (still ∙ t)
            | inr (p, t) ↦ inr (inr (still ∙ t))
          ]
        ],
        elim tried [
          | inl (p, t) ↦ inl (same partial apart ∙ p)
          | inr (p, t) ↦ inr (same partial apart ∙ p)
        ],
      )

      pub second-Outcome :
          (w0 w : W) (r : Option Error × W)
          → Cleared w0 w
          → Renames view partial target w r
          → Outcome w0 r
      second-Outcome w0 w (none, w') (other, stands, there) ((c, found), moved) =
          let full : view w partial ≡ some complete = elim there [
            | inl p ↦ p
            | inr p ↦ absurd (ground arith)
          ] in
          (
            (λ q a b. moved.2 q a b ∙ other q a b),
            inr (inr (moved.0 ∙ full)),
            (λ _. moved.0 ∙ full),
          )
      second-Outcome w0 w (some e, w') (other, stands, there) (inl still) = (
        (λ q a b. still q ∙ other q a b),
        elim stands [
          | inl k ↦ inl (still target ∙ k)
          | inr (inl (p, g)) ↦ inr (inl (p, still target ∙ g))
          | inr (inr f) ↦ inr (inr (still target ∙ f))
        ],
        (λ h. cc),
      )
      second-Outcome w0 w (some e, w') (other, stands, there) (inr moved) = (
        (λ q a b. moved.2 q a b ∙ other q a b),
        elim there [ inl p ↦ inr (inr (moved.0 ∙ p)) | inr p ↦ inr (inl (plain, moved.0 ∙ p)) ],
        (λ h. cc),
      )
