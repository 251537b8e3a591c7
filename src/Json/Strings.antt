-- ===== src/Json/Strings.antt =====
-- Strings of include/vermell/util/json.hpp: `parse_string` reads what `escape_string` prints.
use vermell.Http.Text.{hex_value}
use vermell.Json.{escape_string}
use vermell.Json.Parser.{
  parse_codepoint, encode_utf8, simple_escape, parse_escape, put_front, parse_chars, parse_string,
}
use vermell.Params.{hex_digit, short_escape, escape_char, json_escape}
use vermell.Prelude.{
  ℕ, ◌/◌, ◌%◌, ◌≤◌, ◌<◌, ◌≡◌, refl, ap, ◌∙◌, ◌≢◌, inl, inr, none, some, [], ◌∷◌, ◌++◌, append_assoc,
  arith, ltb, Bool-cases, Option-cases, Bytes,
}

hex_value-hex_digit : (n : ℕ) → n < 16 → hex_value (hex_digit n) ≡ some n
unfolding hex_value
hex_value-hex_digit n h = ground arith

simple_escape-short_escape : (c : ℕ) {e : ℕ} → short_escape c ≡ some e → simple_escape e ≡ some c
unfolding short_escape
simple_escape-short_escape c h = ground arith

short_escape-eq_none : (c : ℕ) → short_escape c ≡ none → (c ≢ b'"') × (c ≢ b'\\')
unfolding short_escape
short_escape-eq_none c h = (ground arith, ground arith)

zero_digit : hex_value b'0' ≡ some 0
unfolding hex_value
zero_digit = refl

parse_codepoint-control :
    (c : ℕ) (s : Bytes)
    → c < 0x20
    → parse_codepoint (b'0' ∷ b'0' ∷ hex_digit (c / 16) ∷ hex_digit (c % 16) ∷ s) ≡ some (c, 4)
unfolding parse_codepoint
parse_codepoint-control c s h =
    rw
      (
        zero_digit,
        hex_value-hex_digit (c / 16) (omega arith),
        hex_value-hex_digit (c % 16) (omega arith),
        parse_codepoint,
      )
      (ground arith)

parse_chars-escape :
    (c e : ℕ) (s : Bytes)
    → simple_escape e ≡ some c
    → parse_chars 0 (b'\\' ∷ e ∷ s) ≡ put_front (c ∷ []) (parse_chars 0 s)
unfolding parse_chars parse_escape
parse_chars-escape c e s h = rw h refl

parse_chars-control :
    (c : ℕ) (s : Bytes)
    → c < 0x20
    → parse_chars 0 (b'\\' ∷ b'u' ∷ b'0' ∷ b'0' ∷ hex_digit (c / 16) ∷ hex_digit (c % 16) ∷ s)
      ≡ put_front (c ∷ []) (parse_chars 0 s)
unfolding parse_chars parse_escape encode_utf8
parse_chars-control c s h = rw (parse_codepoint-control c s h) (ground arith)

parse_chars-plain :
    (c : ℕ) (s : Bytes)
    → 0x20 ≤ c
    → c ≢ b'"'
    → c ≢ b'\\'
    → parse_chars 0 (c ∷ s) ≡ put_front (c ∷ []) (parse_chars 0 s)
unfolding parse_chars
parse_chars-plain c s p q r = ground arith

parse_chars-escape_char :
    (c : ℕ) (s : Bytes) → parse_chars 0 (escape_char c ++ s) ≡ put_front (c ∷ []) (parse_chars 0 s)
unfolding escape_char
parse_chars-escape_char c s = elim (Option-cases (short_escape c)) [
  | inr (e, found) ↦
      rw (found, escape_char) (parse_chars-escape c e s (simple_escape-short_escape c found))
  | inl missing ↦ elim (Bool-cases (ltb c 0x20)) [
    | inl control ↦ rw (missing, escape_char, control) (parse_chars-control c s (ground arith))
    | inr printable ↦
        let other = short_escape-eq_none c missing in
        rw (missing, escape_char, printable) (parse_chars-plain c s (ground arith) other.0 other.1)
  ]
]

parse_chars-json_escape :
    (s rest : Bytes) → parse_chars 0 (json_escape s ++ b'"' ∷ rest) ≡ some (s, rest)
unfolding json_escape
parse_chars-json_escape [] rest = unfold parse_chars in refl
parse_chars-json_escape (c ∷ s) rest =
    ap (parse_chars 0) (append_assoc (escape_char c) (json_escape s) (b'"' ∷ rest))
    ∙ parse_chars-escape_char c (json_escape s ++ b'"' ∷ rest)
    ∙ ap (put_front (c ∷ [])) (parse_chars-json_escape s rest)

-- What follows a printed string is left.
pub parse_string-escape_string :
    (s rest : Bytes) → parse_string (escape_string s ++ rest) ≡ some (s, rest)
unfolding parse_string escape_string
parse_string-escape_string s rest =
    ap (parse_chars 0) (append_assoc (json_escape s) (b'"' ∷ []) rest)
    ∙ parse_chars-json_escape s rest
