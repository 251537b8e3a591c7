-- ===== src/Examples/Documents.antt =====
-- JSON: include/vermell/util/json.hpp.
use vermell.Json.{
  Json, null, bool, int, double, string, array, object, no_items, item, no_members, member,
  FloatText, dump,
}
use vermell.Json.Parser.{
  parse, parse_value, skip_ws, parse_string, parse_chars, parse_escape, parse_codepoint,
  encode_utf8, parse_number, number_value, real_value, parse_array, parse_items, parse_object,
  parse_members, parse_member, scan_number, scan_int, scan_sign, scan_frac, scan_exp, scan_exp_sign,
  span_digits,
}
use vermell.Http.Text.{hex_value}
use vermell.Prelude.Decimal.{decimal, parse_decimal, read_digits}
use vermell.Json.Texts.{IsReadable, IsPrintable}
use vermell.Json.RoundTrip.{depth, parse-dump}
use vermell.Json.Depth.{parse-depth}
use vermell.Json.Numbers.{ends_number, at_digit_of_ends_number, span_digits-end, scan_exp-end}
use vermell.Params.{from_chars, negsuc}
use vermell.Prelude.{
  ℕ, zero, suc, ◌≤◌, ◌≡◌, refl, true, none, some, [], ◌∷◌, ◌++◌, arith, ◌==◌, if◌then◌else◌, Bytes,
  codes, same, strip_prefix, drop_while,
}

-- Doubles by one of their texts: 1.5 alone.
abbrev floats : FloatText
floats = record {
  to_chars = λ d. if d == 0x3ff8000000000000 then some (codes "1.5") else none;
  from_chars = λ s. if same s (codes "1.5") then some 0x3ff8000000000000 else none;
  of_int = λ z. 0;
}

abbrev document : Json
document = object (
    member (codes "a\"\n") (int (negsuc 6)) (
      member (codes "b")
        (array (item (bool true) (item null (item (double 0x3ff8000000000000) no_items))))
        no_members))

dumped : dump floats document ≡ codes "{\"a\\\"\\n\":-7,\"b\":[true,null,1.5]}"
unfolding dump decimal
dumped = refl

parsed : parse floats (codes " {\"a\\\"\\u000a\": -7 ,\"b\":[true, null,1.5]} ") ≡ some document
unfolding parse parse_value skip_ws parse_string parse_chars parse_escape parse_codepoint
    encode_utf8 parse_number number_value real_value parse_array parse_items parse_object
    parse_members parse_member scan_number scan_int scan_sign scan_frac scan_exp scan_exp_sign
    span_digits hex_value from_chars parse_decimal read_digits drop_while strip_prefix same
parsed = refl

surrogates :
    parse floats (codes "\"\\ud83d\\ude00\"") ≡ some (string (0xf0 ∷ 0x9f ∷ 0x98 ∷ 0x80 ∷ []))
unfolding parse parse_value skip_ws parse_string parse_chars parse_escape parse_codepoint
    encode_utf8 parse_number number_value real_value parse_array parse_items parse_object
    parse_members parse_member scan_number scan_int scan_sign scan_frac scan_exp scan_exp_sign
    span_digits hex_value from_chars parse_decimal read_digits drop_while strip_prefix same
surrogates = refl

leading_zero : parse floats (codes "[01]") ≡ none
unfolding parse parse_value skip_ws parse_string parse_chars parse_escape parse_codepoint
    encode_utf8 parse_number number_value real_value parse_array parse_items parse_object
    parse_members parse_member scan_number scan_int scan_sign scan_frac scan_exp scan_exp_sign
    span_digits hex_value from_chars parse_decimal read_digits drop_while strip_prefix same
leading_zero = refl

one_and_half-token :
    (rest : Bytes)
    → ends_number rest ≡ true
    → scan_number (codes "1.5" ++ rest) ≡ some (codes "1.5", true, rest)
unfolding scan_number scan_sign scan_int scan_frac span_digits
one_and_half-token rest ends =
    rw (span_digits-end rest (at_digit_of_ends_number rest ends), scan_exp-end rest ends) refl

abbrev one_and_half-IsReadable : IsReadable floats 0x3ff8000000000000
one_and_half-IsReadable = record {
  text = codes "1.5";
  finite = refl;
  printed = refl;
  token = one_and_half-token;
  back = unfold same in refl;
  first = b'1';
  others = codes ".5";
  begins = refl;
  starts = refl;
}

document-IsPrintable : IsPrintable floats document
document-IsPrintable = (omega arith, ((tt, (tt, (one_and_half-IsReadable, tt))), tt))

document-depth : depth document ≤ 257
unfolding depth
document-depth = omega arith

parse-dump_example : parse floats (dump floats document) ≡ some document
parse-dump_example = parse-dump floats document document-IsPrintable document-depth

parse-depth_example : depth document ≤ 257
parse-depth_example =
    parse-depth floats (codes " {\"a\\\"\\u000a\": -7 ,\"b\":[true, null,1.5]} ") parsed

abbrev nested : ℕ → Bytes
nested zero = []
nested (suc n) = b'[' ∷ b' ' ∷ nested n

too_deep : parse floats (nested 258 ++ codes "]") ≡ none
unfolding parse parse_value skip_ws parse_array parse_items drop_while
too_deep = refl
