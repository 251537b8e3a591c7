-- ===== src/Http/Decode.antt =====
-- Percent-decoding and query strings (include/vermell/http/message.hpp: `url_decode`,
-- `percent_decode`, `parse_query`). A loop over positions is a recursion on the rest of the view.
pub mod RoundTrip
use vermell.Http.Text.{hex_value}
use vermell.Prelude.{
  ℕ, ◌+◌, ◌*◌, Bool, ◌&&◌, Option, none, some, List, [], ◌∷◌, ◌==◌, if◌then◌else◌, Bytes, cut,
  is_empty, split_on,
}

abbrev pub join_digits : Option ℕ → Option ℕ → Option ℕ
join_digits (some hi) (some lo) = some (hi * 16 + lo)
join_digits _ _ = none

-- The byte of a well-formed escape; `(hi << 4) | lo` is `hi * 16 + lo`, since `lo < 16`.
abbrev pub escape : ℕ → ℕ → ℕ → Option ℕ
escape c h l = if c == b'%' then join_digits (hex_value h) (hex_value l) else none

abbrev pub plus_to_space : ℕ → ℕ
plus_to_space c = if c == b'+' then b' ' else c

unfoldable pub url_decode : Bytes → Bytes
url_decode (c ∷ h ∷ l ∷ s) = elim (escape c h l) [
  | some b ↦ b ∷ url_decode s
  | none ↦ plus_to_space c ∷ url_decode (h ∷ l ∷ s)
]
url_decode (c ∷ s) = plus_to_space c ∷ url_decode s
url_decode [] = []

unfoldable pub percent_decode : Bytes → Bytes
percent_decode (c ∷ h ∷ l ∷ s) = elim (escape c h l) [
  | some b ↦ b ∷ percent_decode s
  | none ↦ c ∷ percent_decode (h ∷ l ∷ s)
]
percent_decode (c ∷ s) = c ∷ percent_decode s
percent_decode [] = []

-- One round of the loop of `parse_query`: an empty segment adds nothing.
abbrev pub query_pair : Bytes → Bytes × Bytes
query_pair segment = elim (cut b'=' segment) [
  | some (key, value) ↦ (url_decode key, url_decode value)
  | none ↦ (url_decode segment, [])
]

unfoldable pub query_pairs : List Bytes → List (Bytes × Bytes)
query_pairs [] = []
query_pairs (segment ∷ rest) =
    if is_empty segment then query_pairs rest else query_pair segment ∷ query_pairs rest

unfoldable pub parse_query : Bytes → List (Bytes × Bytes)
unfolding query_pairs split_on cut url_decode
parse_query raw = query_pairs (split_on b'&' raw)
