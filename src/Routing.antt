-- ===== src/Routing.antt =====
-- Route keys, path segments and patterns of include/vermell/routes.hpp. A route pattern is kept as
-- its segments, as in `PatternRoute`.
pub mod Keys
pub mod Matching
use vermell.Http.Decode.{percent_decode}
use vermell.Prelude.{
  ℕ, zero, suc, ◌+◌, ◌-◌, ◌*◌, ◌/◌, ◌%◌, ◌^◌, ◌≤◌, ◌<◌, min, max, String, ◌≡◌, refl, sym, ap, ◌∙◌,
  subst, ◌≡⟨◌⟩◌, ◌∎, ◌≢◌, ◌↔◌, ◌⊎◌, inl, inr, Bool, true, false, not, ◌&&◌, ◌||◌, Option, none,
  some, List, [], ◌∷◌, ◌++◌, map, append-nil, append_assoc, arith, ltb, leb, ◌==◌, within,
  if◌then◌else◌, ltb→lt, lt→ltb, leb→le, le→leb, ==_iff, tests, Bool-cases, Option-cases, same_iff,
  same_refl, strip_prefix-append, strip_prefix-eq_some, Lacks, cut-eq_some, cut-append, cut-eq_none,
  split_on-eq_singleton, split_on-append, split_on-Lacks, join_with-cons, join_with-split_on, Bytes,
  IsBytes, codes, same, is_empty, strip_prefix, is_some, has_byte, push_front, cut, cut_seq,
  cons_head, split_on, lines_of, drop_while, drop_while_end, join_with, length, take, drop, all,
  any, drop_last, get_last?, length-append, take-length_append, drop-length_append, length-drop,
  length-take_le, take-append-drop, All, All-append, All-append_left, All-append_right,
}

-- path + '\x1f' + method
unfoldable pub route_key : Bytes → Bytes → Bytes
route_key path method = path ++ 0x1f ∷ method

unfoldable pub is_pattern_route : Bytes → Bool
unfolding has_byte
is_pattern_route path = has_byte b':' path || has_byte b'*' path

unfoldable pub nonempty : List Bytes → List Bytes
nonempty [] = []
nonempty (s ∷ segments) = if is_empty s then nonempty segments else s ∷ nonempty segments

unfoldable pub split_path : Bytes → List Bytes
unfolding nonempty split_on
split_path path = nonempty (split_on b'/' path)

abbrev pub star : Bytes
star = b'*' ∷ []

-- The name of a segment `:name`; a lone colon is a literal.
abbrev pub param_name? : Bytes → Option Bytes
param_name? [] = none
param_name? (c ∷ []) = none
param_name? (c ∷ d ∷ name) = if c == b':' then some (d ∷ name) else none

-- The loop of `match_pattern` at a pattern and a path of which the matched segments are taken off.
unfoldable pub match_from :
    List (Bytes × Bytes) → List Bytes → List Bytes → Option (List (Bytes × Bytes))
unfolding same join_with percent_decode
match_from params [] [] = some params
match_from params [] (_ ∷ _) = none
match_from params (seg ∷ pattern) [] =
    if same seg star then some (params ++ (star, percent_decode []) ∷ []) else none
match_from params (seg ∷ pattern) (part ∷ path) =
    let rest = match_from params pattern path in
    let captured : Option (List (Bytes × Bytes)) = elim (param_name? seg) [
      | some name ↦ match_from (params ++ (name, percent_decode part) ∷ []) pattern path
      | none ↦ if same seg part then rest else none
    ] in
    if same seg star
    then some (params ++ (star, percent_decode (join_with b'/' (part ∷ path))) ∷ [])
    else captured

unfoldable pub match_pattern : List Bytes → List Bytes → Option (List (Bytes × Bytes))
unfolding match_from
match_pattern pattern path = match_from [] pattern path
