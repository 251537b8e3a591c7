-- ===== src/Http/Decode/RoundTrip.antt =====
-- Percent-encoding as a client writes it, and what the decoders make of it.
use vermell.Http.Decode.{
  escape, plus_to_space, url_decode, percent_decode, query_pair, query_pairs, parse_query,
}
use vermell.Http.Text.{hex_value}
use vermell.Prelude.{
  ℕ, ◌+◌, ◌/◌, ◌%◌, ◌<◌, ◌≤◌, Bool, false, ◌||◌, some, List, [], ◌∷◌, ◌++◌, ◌==◌, if◌then◌else◌,
  Bytes, IsBytes, cut-append, is_empty, split_on, ltb, within, length, map, ◌≡◌, refl, ◌≢◌, arith,
  Bool-cases, inl, inr, Lacks, All, All-append, ap, ◌∙◌, join_with, split_on-append,
  split_on-eq_singleton,
}

-- The unreserved characters of a URL.
abbrev pub is_unreserved : ℕ → Bool
is_unreserved c =
    within b'0' b'9' c
    || within b'A' b'Z' c
    || within b'a' b'z' c
    || c == b'-'
    || c == b'.'
    || c == b'_'
    || c == b'~'

abbrev pub hex_digit : ℕ → ℕ
hex_digit n = if ltb n 10 then n + b'0' else n + 55

-- Every byte but the unreserved ones is escaped.
unfoldable pub percent_encode : Bytes → Bytes
percent_encode [] = []
percent_encode (c ∷ s) =
    let rest = percent_encode s in
    if is_unreserved c then c ∷ rest else b'%' ∷ hex_digit (c / 16) ∷ hex_digit (c % 16) ∷ rest

hex_value-hex_digit : (n : ℕ) → n < 16 → hex_value (hex_digit n) ≡ some n
unfolding hex_value
hex_value-hex_digit n h = ground arith

escape-hex_digit :
    (c : ℕ) → c < 256 → escape b'%' (hex_digit (c / 16)) (hex_digit (c % 16)) ≡ some c
escape-hex_digit c h = ground (arith, hex_value-hex_digit (c / 16), hex_value-hex_digit (c % 16))

percent_decode_plain :
    (c : ℕ) (s : Bytes) → c ≢ b'%' → percent_decode (c ∷ s) ≡ c ∷ percent_decode s
unfolding percent_decode
percent_decode_plain c [] h = refl
percent_decode_plain c (x ∷ []) h = refl
percent_decode_plain c (x ∷ y ∷ s) h = ground arith

-- Decoding a path that a client percent-encoded gives back every byte of it.
pub percent_decode-percent_encode : (s : Bytes) → IsBytes s → percent_decode (percent_encode s) ≡ s
unfolding percent_encode percent_decode
percent_decode-percent_encode [] _ = refl
percent_decode-percent_encode (c ∷ s) (b, h) = elim (Bool-cases (is_unreserved c)) [
  | inl plain ↦
      ground (arith, percent_decode_plain c (percent_encode s), percent_decode-percent_encode s h)
  | inr other ↦ ground (arith, escape-hex_digit c b, percent_decode-percent_encode s h)
]

-- Decoding a form is decoding a path in which every plus sign is first made a space.
pub url_decode-percent_decode : (s : Bytes) → url_decode s ≡ percent_decode (map plus_to_space s)
unfolding url_decode percent_decode hex_value
url_decode-percent_decode [] = refl
url_decode-percent_decode (c ∷ []) = refl
url_decode-percent_decode (c ∷ h ∷ []) = refl
url_decode-percent_decode (c ∷ h ∷ l ∷ s) =
    ground (arith, url_decode-percent_decode s, url_decode-percent_decode (h ∷ l ∷ s))

-- A decoded path is never longer than the path.
pub length-percent_decode : (s : Bytes) → length (percent_decode s) ≤ length s
unfolding percent_decode
length-percent_decode [] = omega arith
length-percent_decode (c ∷ []) = omega arith
length-percent_decode (c ∷ h ∷ []) = omega arith
length-percent_decode (c ∷ h ∷ l ∷ s) =
    ground (arith, length-percent_decode s, length-percent_decode (h ∷ l ∷ s))

All-percent_encode :
    (c : ℕ) (s : Bytes)
    → is_unreserved c ≡ false
    → c ≢ b'%'
    → IsBytes s
    → Lacks c (percent_encode s)
unfolding percent_encode
All-percent_encode c [] n e _ = tt
All-percent_encode c (x ∷ s) n e (b, h) = elim (Bool-cases (is_unreserved x)) [
  | inl plain ↦ rw plain ((λ q. cc (ap is_unreserved q)), All-percent_encode c s n e h)
  | inr other ↦
      rw other (ground arith, (ground arith, (ground arith, All-percent_encode c s n e h)))
]

map-plus_to_space : (s : Bytes) → Lacks b'+' s → map plus_to_space s ≡ s
map-plus_to_space [] _ = refl
map-plus_to_space (c ∷ s) (p, h) = ground (arith, map-plus_to_space s h)

-- A form decoder reads back what was percent-encoded too, since no plus sign is left.
pub url_decode-percent_encode : (s : Bytes) → IsBytes s → url_decode (percent_encode s) ≡ s
url_decode-percent_encode s h =
    url_decode-percent_decode (percent_encode s)
    ∙ ap percent_decode (map-plus_to_space _ (All-percent_encode b'+' s refl (omega arith) h))
    ∙ percent_decode-percent_encode s h

-- A client's form, `k=v&k=v`, each part percent-encoded.
abbrev pub form_segment : Bytes × Bytes → Bytes
form_segment (key, value) = percent_encode key ++ b'=' ∷ percent_encode value

unfoldable pub form_encode : List (Bytes × Bytes) → Bytes
unfolding percent_encode join_with
form_encode pairs = join_with b'&' (map form_segment pairs)

abbrev pub IsPair : Bytes × Bytes → Type 0
IsPair (key, value) = IsBytes key × IsBytes value

query_pair-form_segment : (p : Bytes × Bytes) → IsPair p → query_pair (form_segment p) ≡ p
query_pair-form_segment (key, value) (hk, hv) = ground (
  arith,
  cut-append b'=' (percent_encode key) (percent_encode value)
      (All-percent_encode b'=' key refl (omega arith) hk),
  url_decode-percent_encode key hk,
  url_decode-percent_encode value hv,
)

form_segment-Lacks : (p : Bytes × Bytes) → IsPair p → Lacks b'&' (form_segment p)
form_segment-Lacks (key, value) (hk, hv) =
    All-append (λ x. x ≢ b'&') (percent_encode key) _
      (All-percent_encode b'&' key refl (omega arith) hk)
      (omega arith, All-percent_encode b'&' value refl (omega arith) hv)

is_empty-append : (a b : Bytes) (c : ℕ) → is_empty (a ++ c ∷ b) ≡ false
is_empty-append [] b c = refl
is_empty-append (x ∷ a) b c = refl

query_pairs-form_segment :
    (p : Bytes × Bytes) (rest : List Bytes)
    → IsPair p
    → query_pairs (form_segment p ∷ rest) ≡ p ∷ query_pairs rest
unfolding query_pairs
query_pairs-form_segment p rest h =
    rw (is_empty-append (percent_encode p.0) (percent_encode p.1) b'=')
      (ap (λ q. q ∷ query_pairs rest) (query_pair-form_segment p h))

-- Parsing a form that a client encoded gives back its pairs, in order, empty and repeated keys
-- included, whatever bytes the keys and the values hold.
pub parse_query-form_encode :
    (pairs : List (Bytes × Bytes)) → All IsPair pairs → parse_query (form_encode pairs) ≡ pairs
unfolding parse_query form_encode
parse_query-form_encode [] _ = refl
parse_query-form_encode (p ∷ []) (h, _) =
    ap query_pairs (split_on-eq_singleton b'&' _ (form_segment-Lacks p h))
    ∙ query_pairs-form_segment p [] h
parse_query-form_encode (p ∷ q ∷ ps) (h, hs) =
    ap query_pairs (split_on-append b'&' _ _ (form_segment-Lacks p h))
    ∙ query_pairs-form_segment p (split_on b'&' (form_encode (q ∷ ps))) h
    ∙ ap (◌∷◌ p) (parse_query-form_encode (q ∷ ps) hs)
