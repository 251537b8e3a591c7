-- ===== src/Params.antt =====
-- Request parameters and the response helper of include/vermell/request/parameters.hpp and
-- sources/request/parameters.cpp. `std::from_chars` on a signed type of `w` bits is `from_chars w`;
-- `as` is modelled at Boolean and signed types.
pub mod Escaping
pub mod Numbers
pub mod Prepared
use vermell.Http.Response.{
  Response, WireResponse, new_response, status, content_type, set_body, set, to_wire,
}
use vermell.Prelude.Decimal.{parse_decimal, decimal}
use vermell.Prelude.{
  ℕ, zero, suc, ◌+◌, ◌-◌, ◌*◌, ◌/◌, ◌%◌, ◌^◌, ◌≤◌, ◌<◌, min, max, String, ◌≡◌, refl, sym, ap, ◌∙◌,
  subst, ◌≡⟨◌⟩◌, ◌∎, ◌≢◌, ◌↔◌, ◌⊎◌, inl, inr, Bool, true, false, not, ◌&&◌, ◌||◌, Option, none,
  some, List, [], ◌∷◌, ◌++◌, map, append-nil, append_assoc, arith, ltb, leb, ◌==◌, within,
  if◌then◌else◌, ltb→lt, lt→ltb, leb→le, le→leb, ==_iff, tests, Bool-cases, Option-cases, if-true,
  if-false, same_iff, same_refl, strip_prefix-append, strip_prefix-eq_some, Lacks, cut-eq_some,
  cut-append, cut-eq_none, split_on-eq_singleton, split_on-append, split_on-Lacks, join_with-cons,
  join_with-split_on, Bytes, IsBytes, codes, same, is_empty, strip_prefix, is_some, has_byte,
  push_front, cut, cut_seq, cons_head, split_on, lines_of, drop_while, drop_while_end, join_with,
  ◌>>=◌, ◌>>◌, guard, >>=-eq-some, guard-eq-some, some-injective, length, take, drop, all, any,
  drop_last, get_last?, length-append, take-length_append, drop-length_append, length-drop,
  length-take_le, take-append-drop, All, All-append, All-append_left, All-append_right,
  take-append_of_length, drop-append_of_length, strip_prefix-none_local, cut_seq-eq_some,
  length-cut_seq,
}

pub data ℤ : Type 0 where
  pos : ℕ → ℤ
  negsuc : ℕ → ℤ

pub record ParamBox : Type 0 where
  pub name : Bytes
  pub value : Bytes

abbrev pub null_box : ParamBox
null_box = record { name = codes "null"; value = codes "null" }

-- 0 - n
abbrev pub neg : ℕ → ℤ
neg zero = pos 0
neg (suc n) = negsuc n

abbrev pub neg_option : Option ℕ → Option ℤ
neg_option none = none
neg_option (some n) = some (neg n)

abbrev pub pos_option : Option ℕ → Option ℤ
pos_option none = none
pos_option (some n) = some (pos n)

-- The whole view as a signed number of `w` bits: an optional minus, then digits.
unfoldable pub from_chars : ℕ → Bytes → Option ℤ
from_chars w [] = none
from_chars w (c ∷ s) =
    if c == b'-'
    then neg_option (parse_decimal (2 ^ (w - 1) + 1) s)
    else pos_option (parse_decimal (2 ^ (w - 1)) (c ∷ s))

abbrev pub or_else {ℓ} : {A : Type ℓ} → Option A → A → A
or_else none fallback = fallback
or_else (some a) fallback = a

unfoldable pub as_int : ℕ → ℤ → ParamBox → ℤ
unfolding from_chars
as_int w fallback box = or_else (from_chars w box.value) fallback

unfoldable pub to_int : Bytes → ℤ
unfolding from_chars
to_int data_ = or_else (from_chars 32 data_) (pos 0)

unfoldable pub as_bool : Bool → ParamBox → Bool
unfolding same
as_bool fallback box =
    let is : String → Bool = λ text. same box.value (codes text) in
    if is "1" || is "true" || is "on" || is "yes"
    then true
    else if is "0" || is "false" || is "off" || is "no"
    then false
    else fallback

-- The operations of `Param_t`, on its list.
unfoldable pub find_first : Bytes → List (Bytes × Bytes) → Option (Bytes × Bytes)
unfolding same
find_first name [] = none
find_first name (item ∷ items) = if same item.0 name then some item else find_first name items

unfoldable pub exist : List (Bytes × Bytes) → Bytes → Bool
unfolding same
exist list name = any (λ item. same item.0 name) list

abbrev pub to_box : Bytes × Bytes → ParamBox
to_box item = record { name = item.0; value = item.1 }

unfoldable pub get : List (Bytes × Bytes) → Bytes → ParamBox
unfolding find_first
get list param = elim (find_first param list) [ none ↦ null_box | some item ↦ to_box item ]

unfoldable pub value_or : List (Bytes × Bytes) → Bytes → Bytes → Bytes
unfolding find_first
value_or list name fallback = elim (find_first name list) [ none ↦ fallback | some item ↦ item.1 ]

unfoldable pub get_elem? {ℓ} : {A : Type ℓ} → List A → ℕ → Option A
get_elem? [] n = none
get_elem? (x ∷ xs) zero = some x
get_elem? (x ∷ xs) (suc n) = get_elem? xs n

-- `operator[]`
unfoldable pub at_index : List (Bytes × Bytes) → ℤ → ParamBox
unfolding get_elem?
at_index list (negsuc n) = null_box
at_index list (pos n) = elim (get_elem? list n) [ none ↦ null_box | some item ↦ to_box item ]

-- `HEX[n]`
abbrev pub hex_digit : ℕ → ℕ
hex_digit n = if ltb n 10 then b'0' + n else b'a' + (n - 10)

unfoldable pub short_escape : ℕ → Option ℕ
short_escape c =
    if c == b'"'
    then some b'"'
    else if c == b'\\'
    then some b'\\'
    else if c == 8
    then some b'b'
    else if c == 12
    then some b'f'
    else if c == b'\n'
    then some b'n'
    else if c == b'\r'
    then some b'r'
    else if c == b'\t'
    then some b't'
    else none

unfoldable pub escape_char : ℕ → Bytes
unfolding short_escape
escape_char c = elim (short_escape c) [
  | some e ↦ b'\\' ∷ e ∷ []
  | none ↦
      if ltb c 0x20
      then b'\\' ∷ b'u' ∷ b'0' ∷ b'0' ∷ hex_digit (c / 16) ∷ hex_digit (c % 16) ∷ []
      else c ∷ []
]

unfoldable pub json_escape : Bytes → Bytes
unfolding escape_char
json_escape [] = []
json_escape (c ∷ s) = escape_char c ++ json_escape s

abbrev pub drop_space : Bytes → Bytes
drop_space [] = []
drop_space (c ∷ s) = if c == b' ' then s else c ∷ s

-- Without a last `\r`.
unfoldable pub drop_cr : Bytes → Bytes
drop_cr [] = []
drop_cr (c ∷ []) = if c == b'\r' then [] else c ∷ []
drop_cr (c ∷ d ∷ s) = c ∷ drop_cr (d ∷ s)

-- One line of `apply_headers`: a name that is empty, or no colon, sets nothing.
abbrev pub apply_line : Bytes → Response → Response
apply_line line r = elim (cut b':' line) [
  | none ↦ r
  | some ([], value) ↦ r
  | some (c ∷ name, value) ↦ set (c ∷ name) (drop_cr (drop_space value)) r
]

unfoldable pub apply_lines : List Bytes → Response → Response
unfolding cut set drop_cr
apply_lines [] r = r
apply_lines (line ∷ lines) r = apply_lines lines (apply_line line r)

unfoldable pub apply_headers : Bytes → Response → Response
unfolding apply_lines lines_of
apply_headers headers r = apply_lines (lines_of b'\n' headers) r

-- `response` at the end of `prepare`
unfoldable pub prepared : Bytes → Bytes → Bytes → ℕ → Response
unfolding apply_headers set
prepared body type headers code =
    set_body body (apply_headers headers (content_type type (status code new_response)))

unfoldable pub prepare : Bytes → Bytes → Bytes → ℕ → WireResponse
unfolding prepared
prepare body type headers code = to_wire (prepared body type headers code)

-- `std::to_string(static_cast<int>(seconds))`. The cast of a duration that no `int` holds is undefined
-- in C++; it is modelled as what x86 gives, the least `int`.
abbrev pub to_string_int : ℕ → Bytes
to_string_int seconds = if ltb seconds (2 ^ 31) then decimal seconds else codes "-2147483648"

-- The duration is its whole seconds, which the guard has found positive.
unfoldable pub guard_text : ℕ → Bytes → Bytes
unfolding json_escape decimal
guard_text seconds [] =
    codes "wait, this route has a " ++ (to_string_int seconds ++ codes " second cooldown")
guard_text seconds (c ∷ msg) = json_escape (c ∷ msg)

unfoldable pub guard_body : ℕ → Bytes → Bytes
unfolding guard_text
guard_body seconds msg = codes "{\"message\":\"" ++ (guard_text seconds msg ++ codes "\"}")

unfoldable pub guard_route : ℕ → Bytes → WireResponse
unfolding guard_body prepare
guard_route seconds msg = prepare (guard_body seconds msg) (codes "application/json") [] 401
