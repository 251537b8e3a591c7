-- ===== src/Mime/Lookup.antt =====
-- `vermell::mime::of` of include/vermell/util/mime_types.hpp.
use vermell.Http.Text.{lower}
use vermell.Http.Response.{is_dirty}
use vermell.Http.Response.Headers.{IsClean}
use vermell.Mime.{
  table, find, take_until, after_dot, is_slash, is_suffix_mark, extension, of, default_mime,
}
use vermell.Prelude.{
  ℕ, String, ◌≡◌, refl, ap, ◌∙◌, inl, inr, Bool, true, false, not, ◌&&◌, none, some, List, [], ◌∷◌,
  ◌++◌, append-nil, arith, ◌==◌, Bool-cases, Option-cases, Bytes, codes, same, all, any, All,
  All-append,
}

-- A file extension: not empty, and no dot, slash, `?` or `#`.
abbrev pub is_extension_byte : ℕ → Bool
is_extension_byte c = not (c == b'.') && not (is_slash c) && not (is_suffix_mark c)

take_until-append :
    (p : ℕ → Bool) (s t : Bytes)
    → All (λ c. p c ≡ false) s
    → take_until p (s ++ t) ≡ s ++ take_until p t
unfolding take_until
take_until-append p [] t _ = refl
take_until-append p (c ∷ s) t (other, h) = rw other (ap (◌∷◌ c) (take_until-append p s t h))

after_dot-none : (s : Bytes) → All (λ c. is_extension_byte c ≡ true) s → after_dot s ≡ none
unfolding after_dot
after_dot-none [] _ = refl
after_dot-none (c ∷ s) (p, h) = rw (after_dot-none s h) (ground arith)

after_dot-append :
    (stem ext : Bytes)
    → All (λ c. is_extension_byte c ≡ true) ext
    → after_dot (stem ++ b'.' ∷ ext) ≡ some ext
unfolding after_dot
after_dot-append [] ext h = rw (after_dot-none ext h) refl
after_dot-append (c ∷ stem) ext h = rw (after_dot-append stem ext h) refl

no_slash : (s : Bytes) → All (λ c. is_extension_byte c ≡ true) s → any is_slash s ≡ false
no_slash [] _ = refl
no_slash (c ∷ s) (p, h) = ground (arith, no_slash s h)

no_mark :
    (s : Bytes) → All (λ c. is_extension_byte c ≡ true) s → All (λ c. is_suffix_mark c ≡ false) s
no_mark [] _ = tt
no_mark (c ∷ s) (p, h) = (ground arith, no_mark s h)

extension-append :
    (stem : Bytes) (d : ℕ) (ext : Bytes)
    → All (λ c. is_extension_byte c ≡ true) (d ∷ ext)
    → extension (stem ++ b'.' ∷ d ∷ ext) ≡ some (d ∷ ext)
unfolding extension
extension-append stem d ext h =
    rw (extension, after_dot-append stem (d ∷ ext) h, no_slash (d ∷ ext) h) refl

of-eq_some :
    (path ext : Bytes)
    → extension (take_until is_suffix_mark path) ≡ some ext
    → of path ≡ find table (lower ext)
unfolding of
of-eq_some path ext h = rw (of, h) refl

-- A path that ends with an extension, with or without a query or fragment behind it, has the type
-- that the table gives for that extension in lower case, whatever else stands before the last dot,
-- if it has no `?` and no `#`.
pub of-append :
    (stem : Bytes) (d : ℕ) (ext suffix : Bytes)
    → All (λ c. is_suffix_mark c ≡ false) stem
    → All (λ c. is_extension_byte c ≡ true) (d ∷ ext)
    → take_until is_suffix_mark suffix ≡ []
    → of ((stem ++ b'.' ∷ d ∷ ext) ++ suffix) ≡ find table (lower (d ∷ ext))
of-append stem d ext suffix clean h ends =
    let path = stem ++ b'.' ∷ d ∷ ext in
    let marks =
      All-append (λ c. is_suffix_mark c ≡ false) stem (b'.' ∷ d ∷ ext) clean
        (refl, no_mark (d ∷ ext) h) in
    let cut_at : take_until is_suffix_mark (path ++ suffix) ≡ path =
      take_until-append is_suffix_mark path suffix marks ∙ rw ends (append-nil path) in
    of-eq_some (path ++ suffix) (d ∷ ext) (ap extension cut_at ∙ extension-append stem d ext h)

abbrev is_clean_row : String × String → Bool
is_clean_row row = all (λ c. not (is_dirty c)) (codes row.1)

IsClean-of_all : (s : Bytes) → all (λ c. not (is_dirty c)) s ≡ true → IsClean s
IsClean-of_all [] h = tt
IsClean-of_all (c ∷ s) h = (ground arith, IsClean-of_all s (ground arith))

find-IsClean :
    (rows : List (String × String)) (ext : Bytes)
    → all is_clean_row rows ≡ true
    → IsClean (find rows ext)
unfolding find
find-IsClean [] ext h = IsClean-of_all default_mime refl
find-IsClean ((key, mime) ∷ rows) ext h = elim (Bool-cases (same (codes key) ext)) [
  | inl found ↦ rw found (IsClean-of_all (codes mime) (ground arith))
  | inr other ↦ rw other (find-IsClean rows ext (ground arith))
]

-- Whatever the path is, its type has no control character, so it is sent as it stands.
of-IsClean : (path : Bytes) → IsClean (of path)
unfolding of
of-IsClean path = elim (Option-cases (extension (take_until is_suffix_mark path))) [
  | inl missing ↦ rw (of, missing) (IsClean-of_all default_mime refl)
  | inr (ext, found) ↦ rw (of, found) (find-IsClean table (lower ext) refl)
]
