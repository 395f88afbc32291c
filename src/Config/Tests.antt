-- ===== src/Config/Tests.antt =====
-- Runs of internal/config.
use sfync.Base.{
  ◌≡◌, refl, ◌↔◌, Text, codes, Option, none, some, [], ◌∷◌, true, false, nat_eq, text_eq, pos,
}
use sfync.Config.{
  Profile, Profiles, invalid_port, ok, bytes, sftp, validate, set_defaults, load_profiles, load,
}
use sfync.Config.Rules.{IsValid, validate-IsValid, Accepted, load-Accepted}

abbrev bare : Profile
bare = record {
  host = codes "h";
  username = codes "u";
  password = [];
  ssh_key = codes "~/.ssh/k";
  port = pos 0;
  protocol = [];
  remote_path = [];
  context = codes "~/x/";
  auto_sync = true;
  auto_sync_debounce = pos 0;
  auto_sync_deletes = false;
  verify_host_key = none;
  ftp_connections = pos 0;
  tls_ca_cert = [];
}

abbrev home : Option Text
home = some (codes "/home/u")

abbrev filled : Profile
filled = record bare {
  ssh_key = codes "/home/u/.ssh/k";
  port = pos 22;
  protocol = sftp;
  remote_path = codes "/";
  context = codes "/home/u/x";
  auto_sync_debounce = pos 2000;
  verify_host_key = some true;
}

set_defaults_test : set_defaults home bare ≡ filled
unfolding set_defaults nat_eq text_eq
set_defaults_test = refl

validate_test : validate (record filled { port = pos 70000 }) ≡ some invalid_port
unfolding validate nat_eq text_eq
validate_test = refl

validate-IsValid_example : (validate filled ≡ none) ↔ IsValid filled
validate-IsValid_example = validate-IsValid filled

decode : Text → Option Profiles
decode s = some ((codes "site", bare) ∷ [])

loaded : load decode home (bytes (codes "{}")) ≡ ok ((codes "site", filled) ∷ [])
unfolding load load_profiles decode set_defaults validate nat_eq text_eq
loaded = refl

load-Accepted_example :
    (s : Text) × (ps : Profiles) × (bytes (codes "{}") ≡ bytes s)
    × (decode s ≡ some ps)
    × Accepted home ps ((codes "site", filled) ∷ [])
load-Accepted_example =
    load-Accepted decode home (bytes (codes "{}")) ((codes "site", filled) ∷ []) loaded
