-- ===== src/Transfer/Sftp/Dirs/Walk.antt =====
-- internal/transfer/sftp.go, `MkdirAll`: which paths are there behind it.
use sfync.Base.{◌≡◌, Text, Option, none, some, List, [], true, All}
use sfync.Transfer.Client.{Error}
use sfync.Transfer.Remote.{Answer, ok, err}
use sfync.Transfer.Sftp.{Entry, Session}
use sfync.Transfer.Sftp.Dirs.Names.{IsName, path_of, leading}

module _ {W : Type 0} (there : W → Text → Type 0) where
  -- Whatever was there is there still.
  abbrev pub Grows : W → W → Type 0
  Grows w w' = (p : Text) → there w p → there w' p

  -- A `Stat` that finds a path is right, and where it finds a directory under some names from the
  -- root the directories that it stands in are there.
  abbrev pub Looks : Text → W → Answer Entry × W → Type 0
  Looks p w (ok info, w') =
      Grows w w'
      × there w' p
      × (info.is_dir ≡ true
          → (names : List Text) → All IsName names
          → p ≡ path_of names
          → All (there w') (leading [] names))
  Looks p w (err e, w') = Grows w w'

  abbrev pub MakesDir : Text → W → Option Error × W → Type 0
  MakesDir p w (none, w') = Grows w w' × there w' p
  MakesDir p w (some e, w') = Grows w w'

-- A server from which no directory disappears meanwhile.
pub record IsGrowing {W : Type 0} (s : Session W) (there : W → Text → Type 0) : Type 0 where
  pub stat_law : (p : Text) (w : W) → Looks there p w (s.stat p w)
  pub mkdir_law : (p : Text) (w : W) → MakesDir there p w (s.mkdir p w)

module _ {W : Type 0} (s : Session W) (there : W → Text → Type 0) (server : IsGrowing s there) where
  -- Nothing disappears, and without an error all of some paths are there.
  abbrev pub Arrives : List Text → W → Option Error × W → Type 0
  Arrives ps w r = Grows there w r.1 × (r.0 ≡ none → All (there r.1) ps)
