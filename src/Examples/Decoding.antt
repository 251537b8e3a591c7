-- ===== src/Examples/Decoding.antt =====
-- Decoding: include/vermell/http/message.hpp.
use vermell.Http.Decode.{plus_to_space, url_decode, percent_decode, query_pairs, parse_query}
use vermell.Http.Decode.RoundTrip.{
  percent_encode, percent_decode-percent_encode, form_encode, parse_query-form_encode,
  url_decode-percent_decode,
}
use vermell.Http.Text.{hex_value, trim}
use vermell.Prelude.{◌≡◌, refl, List, [], ◌∷◌, map, arith, Bytes, codes, cut, split_on}

decode_tests :
    (percent_decode (codes "/a%20b+c%2") ≡ codes "/a b+c%2")
    × (url_decode (codes "a+b%zz%41") ≡ codes "a b%zzA")
    × (parse_query (codes "a=1&&b&c=x=y&")
        ≡ (codes "a", codes "1") ∷ (codes "b", []) ∷ (codes "c", codes "x=y") ∷ [])
unfolding url_decode percent_decode hex_value parse_query query_pairs split_on cut
decode_tests = (refl, refl, refl)

trim_test : trim (codes " \t a b \r\n") ≡ codes "a b"
unfolding trim
trim_test = refl

abbrev odd_bytes : Bytes
odd_bytes = 0 ∷ 37 ∷ 38 ∷ 43 ∷ 61 ∷ 65 ∷ 255 ∷ []

percent_decode-percent_encode_example : percent_decode (percent_encode odd_bytes) ≡ odd_bytes
percent_decode-percent_encode_example = percent_decode-percent_encode odd_bytes (omega arith)

url_decode-percent_decode_example :
    url_decode (codes "a+b%2Bc") ≡ percent_decode (map plus_to_space (codes "a+b%2Bc"))
url_decode-percent_decode_example = url_decode-percent_decode (codes "a+b%2Bc")

abbrev odd_pairs : List (Bytes × Bytes)
odd_pairs = (odd_bytes, []) ∷ ([], []) ∷ (odd_bytes, odd_bytes) ∷ []

parse_query-form_encode_example : parse_query (form_encode odd_pairs) ≡ odd_pairs
parse_query-form_encode_example = parse_query-form_encode odd_pairs (omega arith)
