-- ===== src/Config.antt =====
-- internal/config: profiles, their defaults and their validation, and looking one up. The home
-- directory is an argument, none where `os.UserHomeDir` fails. Decoding the JSON is an argument of
-- `load`.
pub mod Rules
pub mod Tests
use sfync.Base.{ℕ, ◌*◌, Text, codes, Option, none, some, List, [], ◌∷◌, Bool, true, false}
use sfync.Base.{◌&&◌, ◌||◌, not, ltb, if◌then◌else◌, ◌==◌, nat_eq, text_eq, bool_eq, has_prefix}
use sfync.Base.{ℤ, pos, negsuc, ltb_ℤ, is_zero}
use sfync.Base.Dict.{Dict, lookup}
use sfync.Base.Paths.{clean, join}

-- `auto_sync_debounce` is in milliseconds. `verify_host_key` is none for a nil pointer.
pub record Profile : Type 0 where
  pub host : Text
  pub username : Text
  pub password : Text
  pub ssh_key : Text
  pub port : ℤ
  pub protocol : Text
  pub remote_path : Text
  pub context : Text
  pub auto_sync : Bool
  pub auto_sync_debounce : ℤ
  pub auto_sync_deletes : Bool
  pub verify_host_key : Option Bool
  pub ftp_connections : ℤ
  pub tls_ca_cert : Text

abbrev pub default_ftp_connections : ℤ
default_ftp_connections = pos 8

abbrev pub max_ftp_connections : ℤ
max_ftp_connections = pos 16

abbrev pub ftp : Text
ftp = codes "ftp"

abbrev pub ftps : Text
ftps = codes "ftps"

abbrev pub sftp : Text
sftp = codes "sftp"

pub data ConfigError : Type 0 where
  missing_host missing_username missing_password missing_password_or_key : ConfigError
  invalid_protocol invalid_port invalid_ftp_connections : ConfigError
  config_not_found config_unreadable config_empty invalid_json : ConfigError
  no_home profile_not_found : ConfigError
  in_profile : Text → ConfigError → ConfigError

unfoldable pub is_blank : Text → Bool
is_blank [] = true
is_blank (c ∷ s) = false

-- `Validate`: the first thing that is wrong.
unfoldable pub validate : Profile → Option ConfigError
unfolding is_blank
validate p =
    if is_blank p.host
    then some missing_host
    else if is_blank p.username
    then some missing_username
    else if not (p.protocol == ftp) && (not (p.protocol == ftps) && not (p.protocol == sftp))
    then some invalid_protocol
    else if ltb_ℤ p.ftp_connections (pos 0) || ltb_ℤ max_ftp_connections p.ftp_connections
    then some invalid_ftp_connections
    else if ltb_ℤ p.port (pos 1) || ltb_ℤ (pos 65535) p.port
    then some invalid_port
    else if p.protocol == sftp
    then (if is_blank p.password && is_blank p.ssh_key then some missing_password_or_key else none)
    else if is_blank p.password
    then some missing_password
    else none

abbrev tilde_slash : Text
tilde_slash = codes "~/"

abbrev tail_bytes : Text → Text
tail_bytes [] = []
tail_bytes (c ∷ s) = s

-- `ExpandHome`
unfoldable pub expand_home : Option Text → Text → Text
unfolding has_prefix join
expand_home none p = p
expand_home (some home) p =
    if not (p == codes "~") && not (has_prefix p tilde_slash)
    then p
    else join (home ∷ tail_bytes p ∷ [])

-- A field with its default where it has Go's zero value.
abbrev or_text : Text → Text → Text
or_text s d = if is_blank s then d else s

abbrev or_int : ℤ → ℤ → ℤ
or_int n d = if is_zero n then d else n

abbrev or_true : Option Bool → Option Bool
or_true none = some true
or_true (some b) = some b

abbrev clean_context : Text → Text
clean_context c = if is_blank c then c else clean c

-- `SetDefaults`. The protocol comes first: the defaults of two other fields look at it.
unfoldable pub set_defaults : Option Text → Profile → Profile
unfolding is_blank expand_home
set_defaults home p =
    let protocol : Text = or_text p.protocol sftp in
    record p {
      protocol = protocol;
      port = or_int p.port (if protocol == sftp then pos 22 else pos 21);
      remote_path = or_text p.remote_path (codes "/");
      verify_host_key = or_true p.verify_host_key;
      auto_sync_debounce = or_int p.auto_sync_debounce (pos 2000);
      ftp_connections =
          if is_zero p.ftp_connections && not (protocol == sftp)
          then default_ftp_connections
          else p.ftp_connections;
      ssh_key = expand_home home p.ssh_key;
      context = clean_context (expand_home home p.context);
      tls_ca_cert = expand_home home p.tls_ca_cert;
    }

-- A value, or an error.
pub data Loaded (A : Type 0) : Type 0 where
  ok : A → Loaded A
  err : ConfigError → Loaded A

abbrev pub Profiles : Type 0
Profiles = Dict Text Profile

abbrev pub keep : Text → Profile → Loaded Profiles → Loaded Profiles
keep name p (ok ps) = ok ((name, p) ∷ ps)
keep name p (err e) = err e

abbrev pub check_one : Text → Profile → Option ConfigError → Loaded Profiles → Loaded Profiles
check_one name p none rest = keep name p rest
check_one name p (some e) rest = err (in_profile name e)

-- The loop of `Load` over the profiles: it ends at the first one that is not valid.
unfoldable pub load_profiles : Option Text → Profiles → Loaded Profiles
load_profiles home [] = ok []
load_profiles home ((name, p) ∷ ps) =
    let rest = load_profiles home ps in
    let q = set_defaults home p in check_one name q (validate q) rest

-- What `os.Stat` and `os.ReadFile` say of the file: that it is missing, that it cannot be read, or
-- its bytes.
pub data ConfigFile : Type 0 where
  missing unreadable : ConfigFile
  bytes : Text → ConfigFile

module _ (decode : Text → Option Profiles) (home : Option Text) where
  abbrev decoded : Option Profiles → Loaded Profiles
  decoded none = err invalid_json
  decoded (some ps) = load_profiles home ps

  abbrev load_file : ConfigFile → Loaded Profiles
  load_file missing = err config_not_found
  load_file unreadable = err config_unreadable
  load_file (bytes s) = if is_blank s then err config_empty else decoded (decode s)

-- `Load`, less its warnings.
unfoldable pub load : (Text → Option Profiles) → Option Text → ConfigFile → Loaded Profiles
unfolding is_blank
load decode none file = err no_home
load decode (some home) file = load_file decode (some home) file

-- `GetProfile`
unfoldable pub get_profile : Text → Profiles → Loaded Profile
unfolding lookup
get_profile name ps = elim (lookup name ps) [ none ↦ err profile_not_found | some p ↦ ok p ]
