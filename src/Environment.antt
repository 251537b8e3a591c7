-- ===== src/Environment.antt =====
-- The environment of sources/environment.cpp: a `.env` file and the variables of the process. The
-- values are a map from keys; `std::getenv` and the file system's text of a path are parameters.
pub mod Lookup
use vermell.Http.Head.{strip_cr}
use vermell.Prelude.{
  ℕ, zero, suc, ◌+◌, ◌-◌, ◌*◌, ◌/◌, ◌%◌, ◌^◌, ◌≤◌, ◌<◌, min, max, String, ◌≡◌, refl, sym, ap, ◌∙◌,
  subst, ◌≡⟨◌⟩◌, ◌∎, ◌≢◌, ◌↔◌, ◌⊎◌, inl, inr, Bool, true, false, not, ◌&&◌, ◌||◌, Option, none,
  some, List, [], ◌∷◌, ◌++◌, map, append-nil, append_assoc, arith, ltb, leb, ◌==◌, within,
  if◌then◌else◌, ltb→lt, lt→ltb, leb→le, le→leb, ==_iff, tests, Bool-cases, Option-cases, if-true,
  if-false, same_iff, same_refl, strip_prefix-append, strip_prefix-eq_some, Lacks, cut-eq_some,
  cut-append, cut-eq_none, split_on-eq_singleton, split_on-append, split_on-Lacks, join_with-cons,
  join_with-split_on, Bytes, IsBytes, codes, same, is_empty, strip_prefix, is_some, has_byte,
  push_front, cut, cut_seq, cons_head, split_on, lines_of, drop_while, drop_while_end, join_with,
  ◌>>=◌, ◌>>◌, guard, >>=-eq-some, guard-eq-some, some-injective, length, take, drop, all, any,
  drop_last, get_last?, length-append, take-length_append, drop-length_append, length-drop,
  length-take_le, take-append-drop, All, All-append, All-append_left, All-append_right,
  take-append_of_length, drop-append_of_length, strip_prefix-none_local, cut_seq-eq_some,
  length-cut_seq,
}

abbrev pub is_blank : ℕ → Bool
is_blank c = c == b' ' || c == b'\t'

abbrev pub trim_blanks : Bytes → Bytes
trim_blanks s = drop_while_end is_blank (drop_while is_blank s)

abbrev pub export_prefix : Bytes
export_prefix = codes "export "

abbrev pub drop_export : Bytes → Bytes
drop_export line = elim (strip_prefix export_prefix line) [
  | none ↦ line
  | some rest ↦ trim_blanks rest
]

abbrev pub is_quoted_by : ℕ → Bytes → Bool
is_quoted_by q [] = false
is_quoted_by q (c ∷ s) = c == q && elim (get_last? s) [ none ↦ false | some last ↦ last == q ]

-- What stands between the quotes, or before a comment.
unfoldable pub clean_value : Bytes → Bytes
unfolding drop_while drop_while_end cut_seq
clean_value value =
    let inner = drop_last (drop 1 value) in
    let bare : Bytes = elim (cut_seq (codes " #") value) [
      | none ↦ value
      | some (before, after) ↦ trim_blanks before
    ] in
    if is_quoted_by b'"' value || is_quoted_by b'\'' value then inner else bare

-- KEY=VALUE; no key is no line.
abbrev pub parse_assignment : Bytes → Option (Bytes × Bytes)
parse_assignment line = elim (cut b'=' line) [
  | none ↦ none
  | some (before, after) ↦
      let key = trim_blanks before in
      let value = clean_value (trim_blanks after) in
      if is_empty key then none else some (key, value)
]

abbrev pub is_comment : Bytes → Bool
is_comment [] = true
is_comment (c ∷ _) = c == b'#'

unfoldable pub parse_line : Bytes → Option (Bytes × Bytes)
unfolding drop_while drop_while_end strip_prefix cut
parse_line line =
    let trimmed = trim_blanks (strip_cr line) in
    if is_comment trimmed then none else parse_assignment (drop_export trimmed)

abbrev pub Values : Type 0
Values = List (Bytes × Bytes)

unfoldable pub find_value : Bytes → Values → Option Bytes
unfolding same
find_value key [] = none
find_value key ((k, v) ∷ values) = if same k key then some v else find_value key values

-- `values_[key] = value`
unfoldable pub put_value : Bytes → Bytes → Values → Values
unfolding same
put_value key value [] = (key, value) ∷ []
put_value key value ((k, v) ∷ values) =
    if same k key then (k, value) ∷ values else (k, v) ∷ put_value key value values

unfoldable pub erase_value : Bytes → Values → Values
unfolding same
erase_value key [] = []
erase_value key ((k, v) ∷ values) =
    if same k key then erase_value key values else (k, v) ∷ erase_value key values

abbrev pub put_line : Values → Option (Bytes × Bytes) → Values
put_line parsed none = parsed
put_line parsed (some (key, value)) = put_value key value parsed

-- A text that ends with a line feed has no line behind it in the source and an empty one here, which
-- is passed over.
unfoldable pub parse_lines : Values → List Bytes → Values
parse_lines parsed [] = parsed
parse_lines parsed (line ∷ lines) = parse_lines (put_line parsed (parse_line line)) lines

unfoldable pub parse_env : Bytes → Values
unfolding split_on
parse_env text = parse_lines [] (split_on b'\n' text)

pub record Environment : Type 0 where
  pub values : Values
  pub path : Bytes

unfoldable pub merge : Values → Values → Values
merge values [] = values
merge values ((k, v) ∷ parsed) = merge (put_value k v values) parsed

-- A file that cannot be opened changes nothing.
unfoldable pub load : (Bytes → Option Bytes) → Bytes → Environment → Bool × Environment
load files path env = elim (files path) [
  | none ↦ (false, env)
  | some text ↦ (true, record { values = merge env.values (parse_env text); path = path })
]

unfoldable pub new_environment : (Bytes → Option Bytes) → Bytes → Environment
new_environment files pwd =
    (load files (pwd ++ codes "/.env") (record { values = []; path = [] })).1

unfoldable pub reload : (Bytes → Option Bytes) → Environment → Bool × Environment
reload files env = if is_empty env.path then (false, env) else load files env.path env

unfoldable pub get : (Bytes → Option Bytes) → Bytes → Bytes → Environment → Bytes
get getenv key fallback env = elim (find_value key env.values) [
  | some value ↦ value
  | none ↦ elim (getenv key) [ some value ↦ value | none ↦ fallback ]
]

unfoldable pub has : (Bytes → Option Bytes) → Bytes → Environment → Bool
has getenv key env = is_some (find_value key env.values) || is_some (getenv key)

abbrev pub set : Bytes → Bytes → Environment → Environment
set key value env = record env { values = put_value key value env.values }

abbrev pub unset : Bytes → Environment → Environment
unset key env = record env { values = erase_value key env.values }

abbrev pub size : Environment → ℕ
size env = length env.values
