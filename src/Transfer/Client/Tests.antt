-- ===== src/Transfer/Client/Tests.antt =====
-- Runs of internal/transfer/client.go.
use sfync.Base.{◌≡◌, refl, codes, some, [], ◌∷◌, ◌++◌, true, false, nat_eq, text_eq}
use sfync.Base.Paths.{split, clean_elements}
use sfync.Transfer.Client.{
  Error, library, wrapped, translate_error, translate_raw, error_text, clean_message, cause,
  wrap_error, is_not_exist, is_safe_entry_name,
}
use sfync.Transfer.Client.Errors.{wrap_error_keeps}
use sfync.Transfer.Client.Names.{clean_elements-safe_name}

abbrev refusal : Error
refusal = wrapped (codes "dial: ") (
    library (record {
      text = codes "connection refused";
      not_exist = false;
      deadline = false;
      reply = some 550;
    }))

translate_error_test : translate_error (some refusal) ≡ codes "Connection refused"
unfolding translate_error translate_raw error_text clean_message cause nat_eq
translate_error_test = refl

wrap_error_keeps_example :
    let w = wrap_error (codes "upload") (some refusal) in
    (is_not_exist w ≡ is_not_exist (some refusal))
    × (translate_error w ≡ translate_error (some refusal))
    × (wrap_error (codes "mirror") w ≡ w)
wrap_error_keeps_example = wrap_error_keeps (codes "upload") (codes "mirror") refusal

clean_elements-safe_name_example :
    clean_elements true [] (split (codes "/www/./a" ++ b'/' ∷ codes "x.js"))
    ≡ clean_elements true [] (split (codes "/www/./a")) ++ codes "x.js" ∷ []
unfolding is_safe_entry_name nat_eq text_eq
clean_elements-safe_name_example =
    clean_elements-safe_name true (codes "/www/./a") (codes "x.js") refl

unsafe_names :
    (is_safe_entry_name (codes "../x") ≡ false) × (is_safe_entry_name (codes "..") ≡ false)
unfolding is_safe_entry_name nat_eq text_eq
unsafe_names = (refl, refl)
