-- ===== src/Transfer/Client/Names.antt =====
-- What `isSafeEntryName` of internal/transfer/client.go protects: a path joined with a name that
-- passes stays below the directory.
use mathlib.Core.List.{reverse-cons}
use sfync.Base.{ℕ, ◌≡◌, ◌≢◌, refl, Text, codes, List, [], ◌∷◌, ◌++◌, Bool, true, false}
use sfync.Base.{if◌then◌else◌, ◌==◌, nat_eq, text_eq, arith}
use sfync.Base.Paths.{split, clean_elements, keep_element, put_first}
use sfync.Transfer.Client.{has_separator, is_safe_entry_name}

-- A name with no slash is its own only element.
split_of_plain : (c : ℕ) (n : Text) → has_separator (c ∷ n) ≡ false → split (c ∷ n) ≡ (c ∷ n) ∷ []
unfolding has_separator split
split_of_plain c [] h = ground arith
split_of_plain c (d ∷ n) h = ground (arith, split_of_plain d n)

split-put_first :
    (c : ℕ) (es fs : List Text) → es ≢ [] → put_first c (es ++ fs) ≡ put_first c es ++ fs
split-put_first c [] fs h = absurd (h refl)
split-put_first c (e ∷ es) fs h = refl

split-ne-nil : (p : Text) → split p ≢ []
unfolding split
split-ne-nil [] = λ e. cc
split-ne-nil (c ∷ p) = elim (split p) as (λ r. (if c == b'/' then [] ∷ r else put_first c r) ≢ []) [
  | [] ↦ λ e. ground arith
  | f ∷ fs ↦ λ e. ground arith
]

-- The elements of `d/n` are those of `d` and those of `n`.
split-append : (d n : Text) → split (d ++ b'/' ∷ n) ≡ split d ++ split n
unfolding split
split-append [] n = ground arith
split-append (c ∷ d) n =
    rw (split-append d n) (ground (arith, split-put_first c (split d) (split n) (split-ne-nil d)))

-- A name that is an element of its own.
abbrev pub IsPlain : Text → Type 0
IsPlain n = (n ≢ []) × (n ≢ codes ".") × (n ≢ codes "..")

clean_elements-append :
    (rooted : Bool) (n : Text) (kept es : List Text)
    → IsPlain n
    → clean_elements rooted kept (es ++ n ∷ []) ≡ clean_elements rooted kept es ++ n ∷ []
unfolding clean_elements
clean_elements-append rooted n kept [] h = ground (arith, h.0, h.1, h.2, reverse-cons n kept)
clean_elements-append rooted n kept (e ∷ es) h =
    clean_elements-append rooted n (keep_element rooted kept e) es h

safe-IsPlain : (n : Text) → is_safe_entry_name n ≡ true → IsPlain n × (has_separator n ≡ false)
unfolding is_safe_entry_name
safe-IsPlain n h = ((ground arith, ground arith, ground arith), ground arith)

-- A name that passes, put behind any directory, is one more element below what the directory
-- comes to: the elements that `path.Clean` keeps of `dir/name` are those that it keeps of `dir`,
-- and then the name.
pub clean_elements-safe_name :
    (rooted : Bool) (dir name : Text)
    → is_safe_entry_name name ≡ true
    → clean_elements rooted [] (split (dir ++ b'/' ∷ name))
      ≡ clean_elements rooted [] (split dir) ++ name ∷ []
clean_elements-safe_name rooted dir [] h = absurd ((safe-IsPlain [] h).0.0 refl)
clean_elements-safe_name rooted dir (c ∷ n) h =
    let facts = safe-IsPlain (c ∷ n) h in
    rw (split-append dir (c ∷ n), split_of_plain c n facts.1)
      (clean_elements-append rooted (c ∷ n) [] (split dir) facts.0)
