-- ===== src/Transfer/Views.antt =====
-- What an operation on files does, seen through the contents that stand at each path. It models no
-- code of its own: the laws of a file server and of the local disk are stated in these words.
use sfync.Base.{
  ℕ, zero, suc, ◌≡◌, ◌≢◌, refl, ap, ◌⊎◌, Text, Option, none, some, List, [], ◌∷◌, ◌++◌,
}
use sfync.Base.{length, drop}

-- The bytes of the file at a path; none where there is no file.
abbrev pub View : Type 0 → Type 0
View W = W → Text → Option (List ℕ)

module _ {W : Type 0} (view : View W) where
  abbrev pub Same : W → W → Type 0
  Same w w' = (q : Text) → view w' q ≡ view w q

  abbrev pub SameBut : Text → W → W → Type 0
  SameBut p w w' = (q : Text) → q ≢ p → view w' q ≡ view w q

  -- The file at `src` stands at `dst`.
  abbrev pub Moved : Text → Text → W → W → Type 0
  Moved src dst w w' =
      (view w' dst ≡ view w src)
      × (view w' src ≡ none)
      × ((q : Text) → q ≢ src → q ≢ dst → view w' q ≡ view w q)

  -- A rename: done, on success; else it was done, or nothing was.
  abbrev pub Renames : {E : Type 0} → Text → Text → W → Option E × W → Type 0
  Renames src dst w (none, w') = ((c : List ℕ) × (view w src ≡ some c)) × Moved src dst w w'
  Renames src dst w (some e, w') = Same w w' ⊎ Moved src dst w w'

  -- A removal: done, on success; else it was done, or nothing was.
  abbrev pub Removes : {E : Type 0} → Text → W → Option E × W → Type 0
  Removes p w (none, w') = SameBut p w w' × (view w' p ≡ none)
  Removes p w (some e, w') = SameBut p w w' × ((view w' p ≡ view w p) ⊎ (view w' p ≡ none))

  pub Removes-SameBut :
      {E : Type 0} (p : Text) (w : W) (r : Option E × W) → Removes p w r → SameBut p w r.1
  Removes-SameBut p w (none, w') h = h.0
  Removes-SameBut p w (some e, w') h = h.0

  -- Nothing happens but at `p`, and on success `c` stands there.
  abbrev pub Makes : {E : Type 0} → Text → List ℕ → W → Option E × W → Type 0
  Makes p c w (none, w') = SameBut p w w' × (view w' p ≡ some c)
  Makes p c w (some e, w') = SameBut p w w'

  -- A file that could not be closed may lack what was written.
  abbrev pub Closes : {E : Type 0} → Text → W → Option E × W → Type 0
  Closes p w (none, w') = Same w w'
  Closes p w (some e, w') = SameBut p w w'

module _ {W : Type 0} (view : View W) where
  pub Makes-SameBut :
      {E : Type 0} (p : Text) (c : List ℕ) (w : W) (r : Option E × W)
      → Makes view p c w r
      → SameBut view p w r.1
  Makes-SameBut p c w (none, w') h = h.0
  Makes-SameBut p c w (some e, w') h = h

  pub Makes-content :
      {E : Type 0} (p : Text) (c : List ℕ) (w : W) (r : Option E × W)
      → Makes view p c w r
      → r.0 ≡ none
      → view r.1 p ≡ some c
  Makes-content p c w (none, w') h done = h.1
  Makes-content p c w (some e, w') h done = absurd (cc)

  pub Closes-SameBut :
      {E : Type 0} (p : Text) (w : W) (r : Option E × W) → Closes view p w r → SameBut view p w r.1
  Closes-SameBut p w (none, w') h q a = h q
  Closes-SameBut p w (some e, w') h q a = h q a

  pub Closes-content :
      {E : Type 0} (p : Text) (w : W) (r : Option E × W)
      → Closes view p w r
      → r.0 ≡ none
      → view r.1 p ≡ view w p
  Closes-content p w (none, w') h done = h p
  Closes-content p w (some e, w') h done = absurd (cc)

-- Bytes written into a file at an offset; a gap is filled with zeros.
abbrev pub overwrite : ℕ → List ℕ → List ℕ → List ℕ
overwrite zero bytes c = bytes ++ drop (length bytes) c
overwrite (suc n) bytes [] = 0 ∷ overwrite n bytes []
overwrite (suc n) bytes (x ∷ c) = x ∷ overwrite n bytes c

drop-nil : (n : ℕ) → drop {A = ℕ} n [] ≡ []
drop-nil zero = refl
drop-nil (suc n) = refl

append-nil : (xs : List ℕ) → xs ++ [] ≡ xs
append-nil [] = refl
append-nil (x ∷ xs) = ap (λ l. x ∷ l) (append-nil xs)

pub overwrite_end : (bytes c : List ℕ) → overwrite (length c) bytes c ≡ c ++ bytes
overwrite_end bytes [] = rw (drop-nil (length bytes)) (append-nil bytes)
overwrite_end bytes (x ∷ c) = ap (λ l. x ∷ l) (overwrite_end bytes c)
