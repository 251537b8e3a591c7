-- ===== src/Http/Response/Headers.antt =====
-- The header list of a response.
use vermell.Http.Response.{Response, new_response, is_dirty, sanitize, set_header, set}
use vermell.Http.Text.{lower, iequals}
use vermell.Prelude.{
  ◌≡◌, refl, sym, ap, ◌∙◌, ◌↔◌, inl, inr, true, false, Option, none, some, List, [], ◌∷◌, arith,
  if◌then◌else◌, Bool-cases, same_iff, Bytes, same, is_empty, All,
}

-- No control character.
abbrev pub IsClean : Bytes → Type 0
IsClean s = All (λ c. is_dirty c ≡ false) s

pub sanitize-IsClean : (s : Bytes) → IsClean (sanitize s)
unfolding sanitize
sanitize-IsClean [] = tt
sanitize-IsClean (c ∷ s) = elim (Bool-cases (is_dirty c)) [
  | inl dirty ↦ rw dirty tt
  | inr clean ↦ rw clean (clean, sanitize-IsClean s)
]

sanitize_of_IsClean : (s : Bytes) → IsClean s → sanitize s ≡ s
unfolding sanitize
sanitize_of_IsClean [] _ = refl
sanitize_of_IsClean (c ∷ s) (p, h) = rw p (ap (◌∷◌ c) (sanitize_of_IsClean s h))

pub iequals_iff : (a b : Bytes) → (iequals a b ≡ true) ↔ (lower a ≡ lower b)
unfolding iequals
iequals_iff a b = same_iff (lower a) (lower b)

pub iequals_refl : (a : Bytes) → iequals a a ≡ true
iequals_refl a = (iequals_iff a a).1 refl

pub iequals_trans : (a b c : Bytes) → iequals a b ≡ true → iequals b c ≡ iequals a c
iequals_trans a b c h =
    let e = (iequals_iff a b).0 h in unfold iequals in ap (λ x. same x (lower c)) (sym e)

-- The value of the first header of that name.
unfoldable pub value_of : Bytes → List (Bytes × Bytes) → Option Bytes
value_of name [] = none
value_of name ((hname, hvalue) ∷ headers) =
    if iequals hname name then some hvalue else value_of name headers

-- Every header has another name, in any case of its letters.
abbrev pub IsFresh : Bytes → List (Bytes × Bytes) → Type 0
IsFresh name headers = All (λ h. iequals h.0 name ≡ false) headers

abbrev pub HasDistinctNames : List (Bytes × Bytes) → Type 0
HasDistinctNames [] = Unit
HasDistinctNames (h ∷ headers) = IsFresh h.0 headers × HasDistinctNames headers

abbrev pub IsCleanHeader : Bytes × Bytes → Type 0
IsCleanHeader h = IsClean h.0 × IsClean h.1

-- No header can end its line early, and no two have the same name.
pub record IsWellFormed (r : Response) : Type 0 where
  pub clean : All IsCleanHeader r.headers
  pub distinct : HasDistinctNames r.headers

set_header-clean :
    (name value : Bytes) (headers : List (Bytes × Bytes))
    → IsClean name
    → IsClean value
    → All IsCleanHeader headers
    → All IsCleanHeader (set_header name value headers)
unfolding set_header
set_header-clean name value [] n v _ = ((n, v), tt)
set_header-clean name value ((hn, hv) ∷ headers) n v ((p, q), h) =
    elim (Bool-cases (iequals hn name)) [
      | inl found ↦ rw found ((p, v), h)
      | inr other ↦ rw other ((p, q), set_header-clean name value headers n v h)
    ]

iequals_sym : (a b : Bytes) → iequals a b ≡ iequals b a
iequals_sym a b = elim (Bool-cases (iequals a b)) [
  | inl e ↦ e ∙ sym ((iequals_iff b a).1 (sym ((iequals_iff a b).0 e)))
  | inr n ↦ elim (Bool-cases (iequals b a)) [
    | inl e ↦ cc ((iequals_iff a b).1 (sym ((iequals_iff b a).0 e)))
    | inr m ↦ n ∙ sym m
  ]
]

set_header-IsFresh :
    (x name value : Bytes) (headers : List (Bytes × Bytes))
    → iequals name x ≡ false
    → IsFresh x headers
    → IsFresh x (set_header name value headers)
unfolding set_header
set_header-IsFresh x name value [] n _ = (n, tt)
set_header-IsFresh x name value ((hn, hv) ∷ headers) n (p, h) =
    elim (Bool-cases (iequals hn name)) [
      | inl found ↦ rw found (p, h)
      | inr other ↦ rw other (p, set_header-IsFresh x name value headers n h)
    ]

set_header-distinct :
    (name value : Bytes) (headers : List (Bytes × Bytes))
    → HasDistinctNames headers
    → HasDistinctNames (set_header name value headers)
unfolding set_header
set_header-distinct name value [] _ = (tt, tt)
set_header-distinct name value ((hn, hv) ∷ headers) (p, h) = elim (Bool-cases (iequals hn name)) [
  | inl found ↦ rw found (p, h)
  | inr other ↦ rw other (
    set_header-IsFresh hn name value headers (iequals_sym name hn ∙ other) p,
    set_header-distinct name value headers h,
  )
]

-- `set` keeps the header list well formed, whatever bytes the name and the value hold.
pub set-IsWellFormed :
    (name value : Bytes) (r : Response) → IsWellFormed r → IsWellFormed (set name value r)
unfolding set
set-IsWellFormed name value r w = elim (Bool-cases (is_empty (sanitize name))) [
  | inl empty ↦ rw empty w
  | inr named ↦ rw named (record {
    clean =
        set_header-clean (sanitize name) (sanitize value) r.headers (sanitize-IsClean name)
          (sanitize-IsClean value) w.clean;
    distinct = set_header-distinct (sanitize name) (sanitize value) r.headers w.distinct;
  })
]

pub new_response-IsWellFormed : IsWellFormed new_response
new_response-IsWellFormed = record { clean = tt; distinct = tt }

value_of-set_header :
    (name value other : Bytes) (headers : List (Bytes × Bytes))
    → value_of other (set_header name value headers)
      ≡ (if iequals name other then some value else value_of other headers)
unfolding set_header value_of
value_of-set_header name value other [] = refl
value_of-set_header name value other ((hn, hv) ∷ headers) = elim (Bool-cases (iequals hn name)) [
  | inl found ↦ rw (found, iequals_trans hn name other found) (ground arith)
  | inr differs ↦ rw differs (
      ground (
        arith,
        value_of-set_header name value other headers,
        iequals_trans name other hn,
        iequals_sym name hn,
        iequals_sym other hn,
      ))
]

-- After `set`, the header of that name has the sanitized value, and every other header is as it
-- was; a name that is empty once sanitized changes nothing.
pub value_of-set :
    (name value other : Bytes) (r : Response)
    → value_of other (set name value r).headers ≡ (
        if is_empty (sanitize name)
        then value_of other r.headers
        else if iequals (sanitize name) other
        then some (sanitize value)
        else value_of other r.headers)
unfolding set
value_of-set name value other r = elim (Bool-cases (is_empty (sanitize name))) [
  | inl empty ↦ rw empty refl
  | inr named ↦ rw named (value_of-set_header (sanitize name) (sanitize value) other r.headers)
]
