-- ===== src/Transfer/Client/Errors.antt =====
-- What the errors of internal/transfer/client.go keep, and which names pass for one path element.
use sfync.Base.{◌≡◌, refl, Text, Option, none, some}
use sfync.Base.{nat_eq, text_eq, arith}
use sfync.Transfer.Client.{
  Error, cause, clean_message, translate_error, wrap_error, is_not_exist, wrap_new,
}

clean_message-wrap_new :
    (op : Text) (e : Error)
    → (cause (wrap_new op e (clean_message e)) ≡ cause e)
      × (clean_message (wrap_new op e (clean_message e)) ≡ some (translate_error (some e)))
unfolding cause clean_message translate_error
clean_message-wrap_new op e = split (clean_message e) refl
  where
    split :
        (m : Option Text)
        → clean_message e ≡ m
        → (cause (wrap_new op e m) ≡ cause e)
          × (clean_message (wrap_new op e m) ≡ some (translate_error (some e)))
    split none h = (refl, refl)
    split (some msg) h = (refl, ground arith)

-- `wrapError` keeps what callers ask of an error and the message that users see of it, and a
-- second `wrapError`, for another operation, changes nothing.
pub wrap_error_keeps :
    (op op' : Text) (e : Error)
    → let w = wrap_error op (some e) in
      (is_not_exist w ≡ is_not_exist (some e))
      × (translate_error w ≡ translate_error (some e))
      × (wrap_error op' w ≡ w)
unfolding wrap_error is_not_exist translate_error
wrap_error_keeps op op' e =
    let facts = clean_message-wrap_new op e in (rw facts.0, rw facts.1, rw facts.1)
