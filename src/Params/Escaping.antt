-- ===== src/Params/Escaping.antt =====
-- `utility_t::json_escape` and `guard_route` of include/vermell/request/parameters.hpp: what is put
-- into the envelope of a guard's message reads back as one JSON string.
use vermell.Http.Text.{hex_value}
use vermell.Params.{hex_digit, short_escape, escape_char, json_escape, guard_text, guard_body}
use vermell.Prelude.Decimal.{decimal, digits_on-is_digit, is_digit}
use vermell.Prelude.{
  ℕ, suc, ◌+◌, ◌*◌, ◌/◌, ◌%◌, ◌^◌, ◌≤◌, ◌<◌, ◌≡◌, refl, subst, ◌≢◌, inl, inr, Bool, true, not, ◌&&◌,
  ◌||◌, Option, none, some, [], ◌∷◌, ◌++◌, append_assoc, arith, ltb, leb, ◌==◌, if◌then◌else◌,
  lt→ltb, Bool-cases, Option-cases, Bytes, codes, all, All, All-append,
}

-- What an escape of one letter stands for (RFC 8259).
abbrev pub unescape : ℕ → Option ℕ
unescape e =
    if e == b'"' || e == b'\\' || e == b'/'
    then some e
    else if e == b'b'
    then some 8
    else if e == b'f'
    then some 12
    else if e == b'n'
    then some b'\n'
    else if e == b'r'
    then some b'\r'
    else if e == b't'
    then some b'\t'
    else none

-- A JSON string behind its opening quote, its text, and what follows its closing quote: no raw
-- control character, quote or backslash. Of the `\u` escapes only those of a byte.
pub data Reads : Bytes → Bytes → Bytes → Type 0 where
  close : {rest : Bytes} → Reads (b'"' ∷ rest) [] rest
  plain :
      {c : ℕ} {s t rest : Bytes}
      → 0x20 ≤ c
      → c ≢ b'"'
      → c ≢ b'\\'
      → Reads s t rest
      → Reads (c ∷ s) (c ∷ t) rest
  short :
      {e b : ℕ} {s t rest : Bytes}
      → unescape e ≡ some b
      → Reads s t rest
      → Reads (b'\\' ∷ e ∷ s) (b ∷ t) rest
  unicode :
      {h l hi lo : ℕ} {s t rest : Bytes}
      → hex_value h ≡ some hi
      → hex_value l ≡ some lo
      → Reads s t rest
      → Reads (b'\\' ∷ b'u' ∷ b'0' ∷ b'0' ∷ h ∷ l ∷ s) ((hi * 16 + lo) ∷ t) rest

hex_value-hex_digit : (n : ℕ) → n < 16 → hex_value (hex_digit n) ≡ some n
unfolding hex_value
hex_value-hex_digit n h = ground arith

unescape-short_escape : (c : ℕ) {e : ℕ} → short_escape c ≡ some e → unescape e ≡ some c
unfolding short_escape
unescape-short_escape c h = ground arith

short_escape-eq_none : (c : ℕ) → short_escape c ≡ none → (c ≢ b'"') × (c ≢ b'\\')
unfolding short_escape
short_escape-eq_none c h = (ground arith, ground arith)

escape_char-Reads :
    (c : ℕ) {s t rest : Bytes} → Reads s t rest → Reads (escape_char c ++ s) (c ∷ t) rest
unfolding escape_char
escape_char-Reads c {s} {t} {rest} k = elim (Option-cases (short_escape c)) [
  | inr (e, found) ↦ rw (found, escape_char) (short (unescape-short_escape c found) k)
  | inl none_short ↦ elim (Bool-cases (ltb c 0x20)) [
    | inl control ↦
        rw (none_short, escape_char, control)
          (subst
            (λ n.
              Reads (b'\\' ∷ b'u' ∷ b'0' ∷ b'0' ∷ hex_digit (c / 16) ∷ hex_digit (c % 16) ∷ s)
                (n ∷ t) rest)
            (omega arith)
            (unicode {hi = c / 16} {lo = c % 16} (hex_value-hex_digit (c / 16) (ground arith))
              (hex_value-hex_digit (c % 16) (omega arith)) k))
    | inr printable ↦
        let unescaped = short_escape-eq_none c none_short in
        rw (none_short, escape_char, printable) (plain (ground arith) (unescaped.0) (unescaped.1) k)
  ]
]

-- Whatever the text is: escaped, with a quote behind it, it reads as one JSON string of that text.
pub json_escape-Reads : (s rest : Bytes) → Reads (json_escape s ++ b'"' ∷ rest) s rest
unfolding json_escape
json_escape-Reads [] rest = close
json_escape-Reads (c ∷ s) rest =
    rw (append_assoc (escape_char c) (json_escape s) (b'"' ∷ rest))
      (escape_char-Reads c (json_escape-Reads s rest))

abbrev is_plain : ℕ → Bool
is_plain c = leb 0x20 c && not (c == b'"') && not (c == b'\\')

plain-Reads : (s rest : Bytes) → All (λ c. is_plain c ≡ true) s → Reads (s ++ b'"' ∷ rest) s rest
plain-Reads [] rest _ = close
plain-Reads (c ∷ s) rest (p, h) =
    plain (ground arith) (ground arith) (ground arith) (plain-Reads s rest h)

All-of_all : (p : ℕ → Bool) (s : Bytes) → all p s ≡ true → All (λ c. p c ≡ true) s
All-of_all p [] h = tt
All-of_all p (c ∷ s) h = (ground arith, All-of_all p s (ground arith))

digits-plain : (s : Bytes) → All (λ c. is_digit c ≡ true) s → All (λ c. is_plain c ≡ true) s
digits-plain [] _ = tt
digits-plain (c ∷ s) (p, h) = (ground arith, digits-plain s h)

-- The message of a guard: the handler's own, or the default one.
abbrev pub message_of : ℕ → Bytes → Bytes
message_of seconds [] =
    codes "wait, this route has a " ++ (decimal seconds ++ codes " second cooldown")
message_of seconds (c ∷ msg) = c ∷ msg

cooldown-plain : (seconds : ℕ) → All (λ c. is_plain c ≡ true) (message_of seconds [])
unfolding decimal
cooldown-plain seconds =
    All-append (λ c. is_plain c ≡ true) (codes "wait, this route has a ")
      (decimal seconds ++ codes " second cooldown")
      (All-of_all is_plain (codes "wait, this route has a ") refl)
      (All-append (λ c. is_plain c ≡ true) (decimal seconds) (codes " second cooldown")
        (digits-plain (decimal seconds) (digits_on-is_digit (suc seconds) seconds))
        (All-of_all is_plain (codes " second cooldown") refl))

guard_text-default :
    (seconds : ℕ) → seconds < 2 ^ 31 → guard_text seconds [] ≡ message_of seconds []
unfolding guard_text
guard_text-default seconds small = rw (lt→ltb seconds (2 ^ 31) small) refl

guard_text-Reads :
    (seconds : ℕ) (msg : Bytes)
    → seconds < 2 ^ 31
    → Reads (guard_text seconds msg ++ codes "\"}") (message_of seconds msg) (codes "}")
guard_text-Reads seconds [] small =
    rw (guard_text-default seconds small)
      (plain-Reads (message_of seconds []) (codes "}") (cooldown-plain seconds))
guard_text-Reads seconds (c ∷ msg) small =
    unfold guard_text in json_escape-Reads (c ∷ msg) (codes "}")

-- Whatever the message is, and for a cooldown of less than 2^31 seconds: behind the opening of its
-- envelope, the body of a guard is one JSON string that reads as the handler's message, or as the
-- default one with the seconds in decimal where that is empty, and the closing brace.
pub guard_body-Reads :
    (seconds : ℕ) (msg : Bytes)
    → seconds < 2 ^ 31
    → (text : Bytes) × (guard_body seconds msg ≡ codes "{\"message\":\"" ++ text)
      × Reads text (message_of seconds msg) (codes "}")
unfolding guard_body
guard_body-Reads seconds msg small =
    (guard_text seconds msg ++ codes "\"}", refl, guard_text-Reads seconds msg small)
