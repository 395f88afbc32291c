-- ===== src/Config/Rules.antt =====
-- What the validation and the defaults of internal/config guarantee.
use sfync.Base.{ℕ, ◌≤◌, ◌≡◌, ◌≢◌, ◌↔◌, ◌⊎◌, inl, inr, refl, Text, Option, none, some, [], ◌∷◌}
use sfync.Base.{text_eq, arith, ℤ, pos, negsuc, Option-cases}
use sfync.Config.{
  Profile, Profiles, ConfigFile, Loaded, ok, err, ftp, ftps, sftp, validate, set_defaults,
  load_profiles, load, check_one, ConfigError, missing, unreadable, bytes,
}

-- An int between two bounds.
abbrev pub InRange : ℕ → ℕ → ℤ → Type 0
InRange lo hi (pos n) = (lo ≤ n) × (n ≤ hi)
InRange lo hi (negsuc n) = ⊥

-- What the program asks of a profile.
pub record IsValid (p : Profile) : Type 0 where
  pub host : p.host ≢ []
  pub username : p.username ≢ []
  pub protocol : (p.protocol ≡ ftp) ⊎ (p.protocol ≡ ftps) ⊎ (p.protocol ≡ sftp)
  pub ftp_connections : InRange 0 16 p.ftp_connections
  pub port : InRange 1 65535 p.port
  pub secret : (p.password ≢ []) ⊎ ((p.protocol ≡ sftp) × (p.ssh_key ≢ []))

validate→IsValid : (p : Profile) → validate p ≡ none → IsValid p
unfolding validate
validate→IsValid p h = record {
  host = ground arith;
  username = ground arith;
  protocol = ground arith;
  ftp_connections = ground arith;
  port = ground arith;
  secret = ground arith;
}

IsValid→validate : (p : Profile) → IsValid p → validate p ≡ none
unfolding validate
IsValid→validate p v = ground arith

-- `Validate` passes exactly the valid profiles.
pub validate-IsValid : (p : Profile) → (validate p ≡ none) ↔ IsValid p
validate-IsValid p = (validate→IsValid p, IsValid→validate p)

-- Each profile is what `SetDefaults` makes of the one of the file under its name, and is valid.
abbrev pub Accepted : Option Text → Profiles → Profiles → Type 0
Accepted home [] [] = Unit
Accepted home [] (_ ∷ _) = ⊥
Accepted home (_ ∷ _) [] = ⊥
Accepted home ((name, p) ∷ ps) ((name', q) ∷ qs) =
    ((name ≡ name') × (q ≡ set_defaults home p) × IsValid q) × Accepted home ps qs

check_one-ok :
    (name : Text) (q : Profile) (v : Option ConfigError) (rest : Loaded Profiles) {qs : Profiles}
    → check_one name q v rest ≡ ok qs
    → (v ≡ none) × (rs : Profiles) × (rest ≡ ok rs) × (qs ≡ (name, q) ∷ rs)
check_one-ok name q none (ok rs) h = (refl, rs, refl, cc)
check_one-ok name q none (err e) h = cc
check_one-ok name q (some e) rest h = cc

load_profiles-Accepted :
    (home : Option Text) (ps qs : Profiles) → load_profiles home ps ≡ ok qs → Accepted home ps qs
unfolding load_profiles
load_profiles-Accepted home [] [] h = tt
load_profiles-Accepted home [] (_ ∷ _) h = cc
load_profiles-Accepted home ((name, p) ∷ ps) qs h =
    let q = set_defaults home p in
    let (good, rs, e, split) = check_one-ok name q (validate q) (load_profiles home ps) h in
    rw split ((refl, refl, validate→IsValid q good), load_profiles-Accepted home ps rs e)

-- A configuration that `Load` returns was decoded from the bytes of the file; each of its profiles
-- is the one of the file with the defaults filled in, and is valid.
pub load-Accepted :
    (decode : Text → Option Profiles) (home : Option Text) (file : ConfigFile) (qs : Profiles)
    → load decode home file ≡ ok qs
    → (s : Text) × (ps : Profiles) × (file ≡ bytes s) × (decode s ≡ some ps) × Accepted home ps qs
unfolding load
load-Accepted decode none file qs h = cc
load-Accepted decode (some home) missing qs h = cc
load-Accepted decode (some home) unreadable qs h = cc
load-Accepted decode (some home) (bytes []) qs h = cc
load-Accepted decode (some home) (bytes (c ∷ s)) qs h = elim (Option-cases (decode (c ∷ s))) [
  | inl bad ↦ absurd (ground arith)
  | inr (ps, good) ↦
      (c ∷ s, ps, refl, good, load_profiles-Accepted (some home) ps qs (rw good at h))
]
