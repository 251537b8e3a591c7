-- ===== src/Json/Parser.antt =====
-- `JsonParser` of include/vermell/util/json.hpp. A position is what is left of the text; the depth is
-- counted down from the limit, and a loop over items runs on fuel, the bytes left.
use vermell.Http.Text.{hex_value}
use vermell.Json.{
  Json, null, bool, int, double, string, array, object, Items, no_items, item, Members, no_members,
  member, FloatText, is_finite,
}
use vermell.Params.{from_chars}
use vermell.Prelude.Decimal.{is_digit}
use vermell.Prelude.{
  ℕ, zero, suc, ◌+◌, ◌-◌, ◌*◌, ◌/◌, ◌%◌, ◌^◌, Bool, true, false, not, ◌&&◌, ◌||◌, Option, none,
  some, [], ◌∷◌, ◌++◌, ltb, ◌==◌, within, if◌then◌else◌, Bytes, codes, is_empty, strip_prefix,
  drop_while, ◌>>=◌, ◌>>◌, guard, length, drop,
}

abbrev pub is_space : ℕ → Bool
is_space c = c == b' ' || c == b'\t' || c == b'\n' || c == b'\r'

unfoldable pub skip_ws : Bytes → Bytes
unfolding drop_while
skip_ws s = drop_while is_space s

-- Four hexadecimal digits.
abbrev pub parse_hex4 : Bytes → Option ℕ
parse_hex4 (a ∷ b ∷ c ∷ d ∷ s) = do
  w ← hex_value a
  x ← hex_value b
  y ← hex_value c
  z ← hex_value d
  some (((w * 16 + x) * 16 + y) * 16 + z)
parse_hex4 _ = none

-- The low surrogate behind a high one, joined with it.
abbrev pub join_low : ℕ → Bytes → Option ℕ
join_low high (b ∷ u ∷ s) = do
  guard (b == b'\\' && u == b'u')
  low ← parse_hex4 s
  guard (within 0xDC00 0xDFFF low)
  some (0x10000 + (high - 0xD800) * 2 ^ 10 + (low - 0xDC00))
join_low high _ = none

abbrev pub count_bytes : ℕ → Option ℕ → Option (ℕ × ℕ)
count_bytes n none = none
count_bytes n (some cp) = some (cp, n)

-- A code point, and how many bytes behind the `\u` it takes.
unfoldable pub parse_codepoint : Bytes → Option (ℕ × ℕ)
parse_codepoint s = elim (parse_hex4 s) [
  | none ↦ none
  | some high ↦
      if within 0xD800 0xDBFF high
      then count_bytes 10 (join_low high (drop 4 s))
      else if within 0xDC00 0xDFFF high
      then none
      else some (high, 4)
]

-- The parts of a code point do not overlap, so `|` is `+`.
unfoldable pub encode_utf8 : ℕ → Bytes
encode_utf8 cp =
    if ltb cp 0x80
    then cp ∷ []
    else if ltb cp 0x800
    then (0xC0 + cp / 2 ^ 6) ∷ (0x80 + cp % 2 ^ 6) ∷ []
    else if ltb cp 0x10000
    then (0xE0 + cp / 2 ^ 12) ∷ (0x80 + cp / 2 ^ 6 % 2 ^ 6) ∷ (0x80 + cp % 2 ^ 6) ∷ []
    else (0xF0 + cp / 2 ^ 18)
      ∷ (0x80 + cp / 2 ^ 12 % 2 ^ 6)
      ∷ (0x80 + cp / 2 ^ 6 % 2 ^ 6)
      ∷ (0x80 + cp % 2 ^ 6)
      ∷ []

-- The byte for an escape of one letter.
abbrev pub simple_escape : ℕ → Option ℕ
simple_escape e =
    if e == b'"' || e == b'\\' || e == b'/'
    then some e
    else if e == b'b'
    then some 8
    else if e == b'f'
    then some 12
    else if e == b'n'
    then some b'\n'
    else if e == b'r'
    then some b'\r'
    else if e == b't'
    then some b'\t'
    else none

-- Behind a backslash: what the escape stands for, and how many bytes it takes.
unfoldable pub parse_escape : Bytes → Option (Bytes × ℕ)
parse_escape [] = none
parse_escape (e ∷ s) = elim (simple_escape e) [
  | some b ↦ some (b ∷ [], 1)
  | none ↦
      if e == b'u' then (do (cp, n) ← parse_codepoint s; some (encode_utf8 cp, suc n)) else none
]

abbrev pub put_front : Bytes → Option (Bytes × Bytes) → Option (Bytes × Bytes)
put_front out none = none
put_front out (some (text, rest)) = some (out ++ text, rest)

-- The loop of `parse_string`, behind the opening quote. The number counts the bytes of an escape that
-- are still to pass.
unfoldable pub parse_chars : ℕ → Bytes → Option (Bytes × Bytes)
parse_chars skip [] = none
parse_chars (suc skip) (c ∷ s) = parse_chars skip s
parse_chars zero (c ∷ s) =
    let plain = put_front (c ∷ []) (parse_chars 0 s) in
    let escaped : Option (Bytes × Bytes) = elim (parse_escape s) [
      | none ↦ none
      | some (out, n) ↦ put_front out (parse_chars n s)
    ] in
    if c == b'"'
    then some ([], s)
    else if c == b'\\'
    then escaped
    else if ltb c 0x20
    then none
    else plain

unfoldable pub parse_string : Bytes → Option (Bytes × Bytes)
parse_string [] = none
parse_string (c ∷ s) = if c == b'"' then parse_chars 0 s else none

-- The digits at the front, and what follows them.
unfoldable pub span_digits : Bytes → Bytes × Bytes
span_digits [] = ([], [])
span_digits (c ∷ s) =
    let rest = span_digits s in if is_digit c then (c ∷ rest.0, rest.1) else ([], c ∷ s)

abbrev pub at_digit : Bytes → Bool
at_digit [] = false
at_digit (c ∷ _) = is_digit c

-- At least one digit.
abbrev pub digits1 : Bytes → Option (Bytes × Bytes)
digits1 s = if at_digit s then some (span_digits s) else none

unfoldable pub scan_sign : Bytes → Bytes × Bytes
scan_sign [] = ([], [])
scan_sign (c ∷ s) = if c == b'-' then (c ∷ [], s) else ([], c ∷ s)

-- `0`, or digits that do not begin with it.
unfoldable pub scan_int : Bytes → Option (Bytes × Bytes)
scan_int [] = none
scan_int (c ∷ s) =
    if c == b'0' then (if at_digit s then none else some (c ∷ [], s)) else digits1 (c ∷ s)

unfoldable pub scan_frac : Bytes → Option (Bytes × Bytes)
scan_frac [] = some ([], [])
scan_frac (c ∷ s) =
    if c == b'.' then (do (ds, rest) ← digits1 s; some (c ∷ ds, rest)) else some ([], c ∷ s)

unfoldable pub scan_exp_sign : Bytes → Bytes × Bytes
scan_exp_sign [] = ([], [])
scan_exp_sign (c ∷ s) = if c == b'+' || c == b'-' then (c ∷ [], s) else ([], c ∷ s)

unfoldable pub scan_exp : Bytes → Option (Bytes × Bytes)
scan_exp [] = some ([], [])
scan_exp (c ∷ s) =
    if c == b'e' || c == b'E'
    then (do
      let signed = scan_exp_sign s
      (ds, rest) ← digits1 signed.1
      some (c ∷ (signed.0 ++ ds), rest))
    else some ([], c ∷ s)

-- The token of a number, whether it is real, and what follows it.
unfoldable pub scan_number : Bytes → Option (Bytes × Bool × Bytes)
scan_number s = do
  let (sign, unsigned) = scan_sign s
  (whole, behind) ← scan_int unsigned
  (frac, behind') ← scan_frac behind
  (exponent, rest) ← scan_exp behind'
  some (sign ++ (whole ++ (frac ++ exponent)), not (is_empty frac) || not (is_empty exponent), rest)

module _ (ft : FloatText) where
  -- A token as a double; one out of range, or not finite, is an error.
  unfoldable pub real_value : Bytes → Option Json
  real_value token = elim (ft.from_chars token) [
    | none ↦ none
    | some d ↦ if is_finite d then some (double d) else none
  ]

  -- An integer that does not fit in 64 bits becomes a double.
  unfoldable pub number_value : Bytes → Bool → Option Json
  number_value token true = real_value token
  number_value token false = elim (from_chars 64 token) [
    | some z ↦ some (int z)
    | none ↦ real_value token
  ]

  unfoldable pub parse_number : Bytes → Option (Json × Bytes)
  parse_number s = do
    (token, real, rest) ← scan_number s
    v ← number_value token real
    some (v, rest)

  -- A literal at the front.
  abbrev pub parse_literal : Bytes → Json → Bytes → Option (Json × Bytes)
  parse_literal lit v s = elim (strip_prefix lit s) [ none ↦ none | some rest ↦ some (v, rest) ]

  abbrev pub add_item : Json → Option (Items × Bytes) → Option (Items × Bytes)
  add_item v none = none
  add_item v (some (xs, rest)) = some (item v xs, rest)

  abbrev pub add_member : Bytes → Json → Option (Members × Bytes) → Option (Members × Bytes)
  add_member k v none = none
  add_member k v (some (ms, rest)) = some (member k v ms, rest)

  -- The loop of `parse_array`, by a parser of its items.
  unfoldable pub parse_items : (Bytes → Option (Json × Bytes)) → ℕ → Bytes → Option (Items × Bytes)
  parse_items value zero s = none
  parse_items value (suc fuel) s = elim (value (skip_ws s)) [
    | none ↦ none
    | some (v, behind) ↦ elim (skip_ws behind) [
      | [] ↦ none
      | c ∷ rest ↦
          let more = add_item v (parse_items value fuel rest) in
          if c == b',' then more else if c == b']' then some (item v no_items, rest) else none
    ]
  ]

  unfoldable pub parse_array : (Bytes → Option (Json × Bytes)) → Bytes → Option (Items × Bytes)
  parse_array value s = elim (skip_ws s) [
    | [] ↦ none
    | c ∷ rest ↦
        let loop = parse_items value (suc (length (c ∷ rest))) (c ∷ rest) in
        if c == b']' then some (no_items, rest) else loop
  ]

  -- The colon behind a key.
  abbrev pub expect_colon : Bytes → Option Bytes
  expect_colon [] = none
  expect_colon (c ∷ rest) = if c == b':' then some rest else none

  -- One member: its key, its value and what follows.
  unfoldable pub parse_member :
      (Bytes → Option (Json × Bytes)) → Bytes → Option (Bytes × Json × Bytes)
  parse_member value s = do
    (key, behind) ← parse_string (skip_ws s)
    rest ← expect_colon (skip_ws behind)
    (v, rest') ← value (skip_ws rest)
    some (key, v, rest')

  -- The loop of `parse_object`.
  unfoldable pub parse_members :
      (Bytes → Option (Json × Bytes)) → ℕ → Bytes → Option (Members × Bytes)
  parse_members value zero s = none
  parse_members value (suc fuel) s = elim (parse_member value s) [
    | none ↦ none
    | some (key, v, behind) ↦ elim (skip_ws behind) [
      | [] ↦ none
      | c ∷ rest ↦
          let more = add_member key v (parse_members value fuel rest) in
          if c == b','
          then more
          else if c == b'}'
          then some (member key v no_members, rest)
          else none
    ]
  ]

  unfoldable pub parse_object : (Bytes → Option (Json × Bytes)) → Bytes → Option (Members × Bytes)
  parse_object value s = elim (skip_ws s) [
    | [] ↦ none
    | c ∷ rest ↦
        let loop = parse_members value (suc (length (c ∷ rest))) (c ∷ rest) in
        if c == b'}' then some (no_members, rest) else loop
  ]

  abbrev pub to_string : Option (Bytes × Bytes) → Option (Json × Bytes)
  to_string none = none
  to_string (some (s, rest)) = some (string s, rest)

  abbrev pub to_array : Option (Items × Bytes) → Option (Json × Bytes)
  to_array none = none
  to_array (some (xs, rest)) = some (array xs, rest)

  abbrev pub to_object : Option (Members × Bytes) → Option (Json × Bytes)
  to_object none = none
  to_object (some (ms, rest)) = some (object ms, rest)

  -- `parse_value` with that many levels left: at depth `n` there are 257 - n.
  unfoldable pub parse_value : ℕ → Bytes → Option (Json × Bytes)
  parse_value zero s = none
  parse_value (suc levels) [] = parse_number []
  parse_value (suc levels) (c ∷ s) =
      let arrays = to_array (parse_array (parse_value levels) s) in
      let objects = to_object (parse_object (parse_value levels) s) in
      if c == b'n'
      then parse_literal (codes "null") null (c ∷ s)
      else if c == b't'
      then parse_literal (codes "true") (bool true) (c ∷ s)
      else if c == b'f'
      then parse_literal (codes "false") (bool false) (c ∷ s)
      else if c == b'"'
      then to_string (parse_string (c ∷ s))
      else if c == b'['
      then arrays
      else if c == b'{'
      then objects
      else parse_number (c ∷ s)

  abbrev max_depth : ℕ
  max_depth = 256

  -- Nothing but white space may follow.
  abbrev pub at_end : Json × Bytes → Option Json
  at_end (v, rest) = if is_empty (skip_ws rest) then some v else none

  unfoldable pub parse : Bytes → Option Json
  parse text = parse_value (max_depth + 1) (skip_ws text) >>= at_end
