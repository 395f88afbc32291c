-- ===== src/Transfer/Client.antt =====
-- internal/transfer/client.go: timeouts, names and errors. An error of a library is what the
-- program asks of it; `wrapped` is an error of fmt.Errorf with %w at its end.
pub mod Errors
pub mod Names
pub mod Tests
use sfync.Base.{ℕ, ◌+◌, ◌*◌, ◌/◌, ◌%◌, ◌^◌, Text, codes, Option, none, some, List, [], ◌∷◌, ◌++◌}
use sfync.Base.{Bool, true, false, ◌&&◌, ◌||◌, not, if◌then◌else◌, ◌==◌, nat_eq, text_eq, contains}
use sfync.Base.{leb, ltb}
use sfync.Base.Paths.{join}
use sfync.Transfer.Types.{second}

-- `text` is what `Error()` returns. `not_exist` and `deadline` are `errors.Is` for fs.ErrNotExist
-- and context.DeadlineExceeded, and `reply` the code of a *textproto.Error in the chain.
pub record LibraryError : Type 0 where
  pub text : Text
  pub not_exist : Bool
  pub deadline : Bool
  pub reply : Option ℕ

pub data Error : Type 0 where
  library : LibraryError → Error
  wrapped : Text → Error → Error
  clean_error : Text → Text → Error → Error

-- `Error()`
unfoldable pub error_text : Error → Text
error_text (library e) = e.text
error_text (wrapped prefix e) = prefix ++ error_text e
error_text (clean_error op msg e) = op ++ codes ": " ++ msg

-- The library error at the end of the chain.
unfoldable pub cause : Error → LibraryError
cause (library e) = e
cause (wrapped prefix e) = cause e
cause (clean_error op msg e) = cause e

-- The message of the first *cleanError in the chain.
unfoldable pub clean_message : Error → Option Text
clean_message (library e) = none
clean_message (wrapped prefix e) = clean_message e
clean_message (clean_error op msg e) = some msg

-- The character — in UTF-8.
abbrev em_dash : Text
em_dash = 0xe2 ∷ 0x80 ∷ 0x94 ∷ []

-- `strings.Contains(msg, …)` for one of several.
abbrev has_any : Text → List Text → Bool
has_any msg [] = false
has_any msg (p ∷ ps) = contains msg p || has_any msg ps

-- The end of the ladder: errors of file operations.
unfoldable pub translate_file : Text → Text
unfolding contains
translate_file msg =
    if has_any msg (codes "SSH_FX_NO_SUCH_FILE" ∷ codes "No such file" ∷ codes "550" ∷ [])
    then codes "File or directory not found"
    else if has_any msg
        (codes "SSH_FX_PERMISSION_DENIED" ∷ codes "Permission denied" ∷ codes "553" ∷ [])
    then codes "Permission denied"
    else if has_any msg (codes "disk full" ∷ codes "552" ∷ [])
    then codes "Remote disk full"
    else if has_any msg (codes "SSH_FX_FAILURE" ∷ [])
    then codes "Remote operation failed"
    else msg

-- The ladder of tests of `translateError` on a raw message.
unfoldable pub translate_raw : Bool → Text → Text
unfolding contains translate_file
translate_raw deadline msg =
    if has_any msg (codes "connection refused" ∷ [])
    then codes "Connection refused"
    else if has_any msg (codes "no such host" ∷ codes "could not resolve" ∷ [])
    then codes "Host not found"
    else if deadline || has_any msg (codes "i/o timeout" ∷ [])
    then codes "Connection timed out"
    else if has_any msg (codes "connection reset" ∷ [])
    then codes "Connection reset by server"
    else if has_any msg (codes "broken pipe" ∷ [])
    then codes "Connection lost"
    else if has_any msg (codes "x509:" ∷ codes "tls:" ∷ [])
    then codes "TLS error: " ++ msg
    else if has_any msg
        (codes "unable to authenticate" ∷ codes "530" ∷ codes "Login incorrect" ∷ [])
    then codes "Authentication failed"
    else if has_any msg (codes "passphrase-protected" ∷ [])
    then msg
    else if has_any msg (codes "key mismatch" ∷ codes "no authority for" ∷ [])
    then codes "Server identity changed " ++ (em_dash ++ codes " check ~/.ssh/known_hosts")
    else translate_file msg

abbrev pub or_raw : Option Text → Text → Text
or_raw none raw = raw
or_raw (some msg) raw = msg

unfoldable pub translate_error : Option Error → Text
translate_error none = []
translate_error (some e) =
    or_raw (clean_message e) (translate_raw (cause e).deadline (error_text e))

abbrev pub wrap_new : Text → Error → Option Text → Error
wrap_new op e (some msg) = e
wrap_new op e none = clean_error op (translate_error (some e)) e

-- `wrapError`, less its log line.
unfoldable pub wrap_error : Text → Option Error → Option Error
wrap_error op none = none
wrap_error op (some e) = some (wrap_new op e (clean_message e))

-- The reply code 550 of FTP.
abbrev pub status_file_unavailable : ℕ
status_file_unavailable = 550

abbrev pub is_550 : Option ℕ → Bool
is_550 none = false
is_550 (some code) = code == status_file_unavailable

-- `IsNotExist`; false for nil.
unfoldable pub is_not_exist : Option Error → Bool
unfolding cause
is_not_exist none = false
is_not_exist (some e) = (cause e).not_exist || is_550 (cause e).reply

-- `TransferTimeout`, for sizes whose timeout fits in an int64.
unfoldable pub transfer_timeout : ℕ → ℕ
transfer_timeout size = 30 * second + size / (1024 * 1024) * second

-- `RemotePath`
unfoldable pub remote_path : List Text → Text
unfolding join
remote_path parts = join parts

-- `strings.ContainsAny(name, "/\\")`
unfoldable pub has_separator : Text → Bool
has_separator [] = false
has_separator (c ∷ s) = (c == b'/' || c == 92) || has_separator s

unfoldable pub is_safe_entry_name : Text → Bool
unfolding has_separator
is_safe_entry_name name =
    if name == [] || (name == codes "." || name == codes "..")
    then false
    else not (has_separator name)
