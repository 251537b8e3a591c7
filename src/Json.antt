-- ===== src/Json.antt =====
-- `vermell::Json` of include/vermell/util/json.hpp: values, the printer and the accessors. A double is
-- its bit pattern; `std::to_chars` and `std::from_chars` on doubles are the fields of `FloatText`.
pub mod Parser
pub mod Strings
pub mod Numbers
pub mod Texts
pub mod Loops
pub mod RoundTrip
pub mod Depth
pub mod Consuming
pub mod Fuel
use vermell.Params.{ℤ, pos, negsuc, json_escape}
use vermell.Params.Numbers.{print}
use vermell.Prelude.{
  ℕ, zero, suc, ◌+◌, ◌-◌, ◌*◌, ◌/◌, ◌%◌, ◌^◌, ◌≤◌, ◌<◌, min, max, String, ◌≡◌, refl, sym, ap, ◌∙◌,
  subst, ◌≡⟨◌⟩◌, ◌∎, ◌≢◌, ◌↔◌, ◌⊎◌, inl, inr, Bool, true, false, not, ◌&&◌, ◌||◌, Option, none,
  some, List, [], ◌∷◌, ◌++◌, map, append-nil, append_assoc, arith, ltb, leb, ◌==◌, within,
  if◌then◌else◌, ltb→lt, lt→ltb, leb→le, le→leb, ==_iff, tests, Bool-cases, Option-cases, if-true,
  if-false, same_iff, same_refl, strip_prefix-append, strip_prefix-eq_some, Lacks, cut-eq_some,
  cut-append, cut-eq_none, split_on-eq_singleton, split_on-append, split_on-Lacks, join_with-cons,
  join_with-split_on, Bytes, IsBytes, codes, same, is_empty, strip_prefix, is_some, has_byte,
  push_front, cut, cut_seq, cons_head, split_on, lines_of, drop_while, drop_while_end, join_with,
  ◌>>=◌, ◌>>◌, guard, >>=-eq-some, guard-eq-some, some-injective, length, take, drop, all, any,
  drop_last, get_last?, length-append, take-length_append, drop-length_append, length-drop,
  length-take_le, take-append-drop, All, All-append, All-append_left, All-append_right,
  take-append_of_length, drop-append_of_length, strip_prefix-none_local, cut_seq-eq_some,
  length-cut_seq,
}

mutual
  pub data Json : Type 0 where
    null : Json
    bool : Bool → Json
    int : ℤ → Json
    double : ℕ → Json
    string : Bytes → Json
    array : Items → Json
    object : Members → Json

  pub data Items : Type 0 where
    no_items : Items
    item : Json → Items → Items

  pub data Members : Type 0 where
    no_members : Members
    member : Bytes → Json → Members → Members

pub record FloatText : Type 0 where
  pub to_chars : ℕ → Option Bytes
  pub from_chars : Bytes → Option ℕ
  pub of_int : ℤ → ℕ

-- `std::isfinite` of a binary64
abbrev pub is_finite : ℕ → Bool
is_finite d = not (d / 2 ^ 52 % 2 ^ 11 == 2047)

unfoldable pub escape_string : Bytes → Bytes
unfolding json_escape
escape_string text = b'"' ∷ (json_escape text ++ b'"' ∷ [])

abbrev pub null_text : Bytes
null_text = codes "null"

unfoldable pub dump_double : FloatText → ℕ → Bytes
dump_double ft d = elim (ft.to_chars d) [
  | none ↦ null_text
  | some text ↦ if is_finite d then text else null_text
]

-- `if (!first) out += ','`
abbrev pub comma : Bool → Bytes
comma true = []
comma false = b',' ∷ []

unfoldable mutual
  unfolding print escape_string dump_double

  pub dump : FloatText → Json → Bytes
  dump ft null = null_text
  dump ft (bool true) = codes "true"
  dump ft (bool false) = codes "false"
  dump ft (int z) = print z
  dump ft (double d) = dump_double ft d
  dump ft (string s) = escape_string s
  dump ft (array xs) = b'[' ∷ (dump_items ft true xs ++ b']' ∷ [])
  dump ft (object ms) = b'{' ∷ (dump_members ft true ms ++ b'}' ∷ [])

  pub dump_items : FloatText → Bool → Items → Bytes
  dump_items ft first no_items = []
  dump_items ft first (item x xs) = comma first ++ (dump ft x ++ dump_items ft false xs)

  pub dump_members : FloatText → Bool → Members → Bytes
  dump_members ft first no_members = []
  dump_members ft first (member key x ms) =
      comma first ++ (escape_string key ++ (b':' ∷ (dump ft x ++ dump_members ft false ms)))

abbrev pub as_bool : Bool → Json → Bool
as_bool fallback (bool b) = b
as_bool fallback _ = fallback

abbrev pub as_int : ℤ → Json → ℤ
as_int fallback (int z) = z
as_int fallback _ = fallback

abbrev pub as_double : FloatText → ℕ → Json → ℕ
as_double ft fallback (double d) = d
as_double ft fallback (int z) = ft.of_int z
as_double ft fallback _ = fallback

abbrev pub as_string : Bytes → Json → Bytes
as_string fallback (string s) = s
as_string fallback _ = fallback

abbrev pub as_array : Json → Items
as_array (array xs) = xs
as_array _ = no_items

abbrev pub as_object : Json → Members
as_object (object ms) = ms
as_object _ = no_members

unfoldable pub length_items : Items → ℕ
length_items no_items = 0
length_items (item x xs) = suc (length_items xs)

unfoldable pub length_members : Members → ℕ
length_members no_members = 0
length_members (member key x ms) = suc (length_members ms)

unfoldable pub size : Json → ℕ
unfolding length_items length_members
size (array xs) = length_items xs
size (object ms) = length_members ms
size (string s) = length s
size _ = 0

unfoldable pub find_member : Bytes → Members → Option Json
unfolding same
find_member key no_members = none
find_member key (member k v ms) = if same k key then some v else find_member key ms

-- `at(key)`; a null pointer is `none`.
abbrev pub at_key : Json → Bytes → Option Json
at_key (object ms) key = find_member key ms
at_key _ key = none

unfoldable pub find_item : ℕ → Items → Option Json
find_item n no_items = none
find_item zero (item x xs) = some x
find_item (suc n) (item x xs) = find_item n xs

-- `at(index)`
abbrev pub at_index : Json → ℕ → Option Json
at_index (array xs) n = find_item n xs
at_index _ n = none

-- The loop of `JsonStringBuilder`: a key, then its value; an odd last key has a null.
unfoldable pub build_members : Items → Members
build_members no_items = no_members
build_members (item key no_items) = member (as_string [] key) null no_members
build_members (item key (item value items)) = member (as_string [] key) value (build_members items)

unfoldable pub build : Items → Json
unfolding build_members
build items = object (build_members items)

abbrev pub build_json : FloatText → Items → Bytes
build_json ft items = dump ft (build items)
