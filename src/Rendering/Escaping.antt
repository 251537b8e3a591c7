-- ===== src/Rendering/Escaping.antt =====
-- `escape_html` and `valid_include_name` of include/vermell/util/secure_render.h.
use vermell.Rendering.{is_name_byte, valid_include_name, escape_html_char, escape_html, dotdot}
use vermell.Http.Multipart.{is_slash, is_control}
use vermell.Http.Multipart.Files.{IsSafeName}
use vermell.Prelude.{
  ℕ, ◌≤◌, ◌≡◌, refl, sym, subst, ◌≢◌, inl, inr, Bool, true, false, ◌||◌, Option, none, some, [],
  ◌∷◌, ◌++◌, arith, leb, ◌==◌, if◌then◌else◌, Bool-cases, same_iff, Bytes, codes, same, length, all,
  All,
}

-- A byte that opens a tag, closes one, or ends an attribute's value.
abbrev pub is_markup : ℕ → Bool
is_markup c = c == b'<' || c == b'>' || c == b'"' || c == b'\''

-- The entity that stands for a byte in a page.
abbrev pub entity_of : ℕ → Option Bytes
entity_of c =
    if c == b'&'
    then some (codes "&amp;")
    else if c == b'<'
    then some (codes "&lt;")
    else if c == b'>'
    then some (codes "&gt;")
    else if c == b'"'
    then some (codes "&quot;")
    else if c == b'\''
    then some (codes "&#39;")
    else none

-- A text of a page that shows a text: entities, and bytes that are neither markup nor `&`.
pub data Shows : Bytes → Bytes → Type 0 where
  done : Shows [] []
  plain : {c : ℕ} {s t : Bytes} → is_markup c ≡ false → c ≢ b'&' → Shows s t → Shows (c ∷ s) (c ∷ t)
  entity :
      {c : ℕ} {s t : Bytes} (text : Bytes)
      → entity_of c ≡ some text
      → Shows s t
      → Shows (text ++ s) (c ∷ t)

abbrev pub is_shown : ℕ → Bool
is_shown c = leb 0x20 c || c == b'\n' || c == b'\t'

-- The text without its control characters.
unfoldable pub shown : Bytes → Bytes
shown [] = []
shown (c ∷ s) = let rest = shown s in if is_shown c then c ∷ rest else rest

abbrev is_special : ℕ → Bool
is_special c = is_markup c || c == b'&'

escape_html_char-special :
    (c : ℕ) → is_special c ≡ true → (entity_of c ≡ some (escape_html_char c)) × (is_shown c ≡ true)
unfolding escape_html_char
escape_html_char-special c h = (ground arith, ground arith)

escape_html_char-plain :
    (c : ℕ) → is_special c ≡ false → escape_html_char c ≡ (if is_shown c then c ∷ [] else [])
unfolding escape_html_char
escape_html_char-plain c h = ground arith

shown_cons : (c : ℕ) (s : Bytes) → is_shown c ≡ true → shown (c ∷ s) ≡ c ∷ shown s
unfolding shown
shown_cons c s seen = rw seen refl

-- Whatever the text is: escaped, it shows that text without its control characters,
-- of which newline, tab and DEL are kept, and has no
-- markup: every `&` begins an entity, and no `<`, `>` or quote of either kind is left.
pub escape_html-Shows : (s : Bytes) → Shows (escape_html s) (shown s)
unfolding escape_html shown
escape_html-Shows [] = done
escape_html-Shows (c ∷ s) = elim (Bool-cases (is_special c)) [
  | inl marked ↦
      let (entity_for, seen) = escape_html_char-special c marked in
      subst (Shows (escape_html_char c ++ escape_html s)) (sym (shown_cons c s seen))
        (entity (escape_html_char c) entity_for (escape_html-Shows s))
  | inr bland ↦ elim (Bool-cases (is_shown c)) [
    | inl seen ↦
        rw (escape_html_char-plain c bland, seen)
          (plain (ground arith) (ground arith) (escape_html-Shows s))
    | inr hidden ↦ rw (escape_html_char-plain c bland, hidden) (escape_html-Shows s)
  ]
]

all-not :
    (s : Bytes)
    → all is_name_byte s ≡ true
    → All (λ c. is_slash c ≡ false) s × All (λ c. is_control c ≡ false) s
all-not [] h = (tt, tt)
all-not (c ∷ s) h =
    let (bare, printable) = all-not s (ground arith) in
    ((ground arith, bare), (ground arith, printable))

-- A module name that is accepted is a safe file name of at most 255 bytes.
pub valid_include_name-IsSafeName :
    (name : Bytes) → valid_include_name name ≡ true → IsSafeName name × (length name ≤ 255)
unfolding valid_include_name
valid_include_name-IsSafeName name h =
    let (bare, printable) = all-not name (ground arith) in
    let unequal : (same name (b'.' ∷ []) ≡ false) × (same name dotdot ≡ false) =
      (ground arith, ground arith) in
    (
      record {
        nonempty = ground arith;
        bare = bare;
        printable = printable;
        not_dot = (λ e. cc ((same_iff name (b'.' ∷ [])).1 e, unequal.0));
        not_dotdot = (λ e. cc ((same_iff name dotdot).1 e, unequal.1));
      },
      ground arith,
    )
