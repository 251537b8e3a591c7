-- ===== src/Examples/Parsing.antt =====
-- Parsing: include/vermell/http/message.hpp.
use vermell.Http.Chunked.{read_size, chunk_size, skip_trailers, scan_chunks, scan_chunked}
use vermell.Http.Chunked.Grammar.{IsCoding, Completes, scan_chunked_iff}
use vermell.Http.Head.{
  head_bounds, strip_cr, scan_length, scan_encoding, scan_field, scan_content, scan_line,
  scan_lines, scan_head, is_token, is_valid_target, is_valid_version, version_at_least_11,
  endings_ok, first_line, line_endings_ok,
}
use vermell.Http.Head.Scan.{IsConsistent, scan_head-IsConsistent}
use vermell.Http.Message.{
  Framing, refuse, inspect_body, inspect_head, inspect, Message, parse_request_line, strip_slash,
  split_target, parse_field, parse_fields, count_hosts, parse_body, header_in, type_params,
  parse_content_type, parse_head, parse,
}
use vermell.Http.Message.Locality.{IsSelfDelimited, parse-IsSelfDelimited}
use vermell.Http.Message.WellFormed.{IsWellFormed, parse-IsWellFormed}
use vermell.Http.Text.{hex_value, lower, iequals, trim}
use vermell.Prelude.Decimal.{read_digits, parse_decimal}
use vermell.Prelude.{
  ◌≡◌, refl, ◌↔◌, some, [], ◌∷◌, ◌++◌, arith, Bytes, codes, same, strip_prefix, has_byte, cut,
  cut_seq, split_on, lines_of, drop_while, drop_while_end, length,
}

-- A request with a body, and the start of the next one.
abbrev post_raw : Bytes
post_raw =
    codes
      "POST /form/?a=1 HTTP/1.1\r\nHost: x\r\nContent-Type: Text/Plain; charset=\"u\"\r\nContent-Length: 3\r\n\r\nabcGET /"

abbrev post_message : Message
post_message = record {
  method = codes "POST";
  target = codes "/form/?a=1";
  path = codes "/form";
  query = codes "a=1";
  version = codes "HTTP/1.1";
  body = codes "abc";
  headers =
      (codes "Host", codes "x")
      ∷ (codes "Content-Type", codes "Text/Plain; charset=\"u\"")
      ∷ (codes "Content-Length", codes "3")
      ∷ [];
  content_length = 3;
  content_type = codes "text/plain";
  content_type_params = (codes "charset", codes "u") ∷ [];
}

parse_post : parse post_raw ≡ some post_message
unfolding parse parse_head head_bounds cut_seq strip_prefix scan_head cut lines_of scan_lines
    scan_line strip_cr scan_content trim drop_while drop_while_end scan_field iequals same lower
    scan_length scan_encoding parse_decimal read_digits line_endings_ok first_line
    version_at_least_11 endings_ok split_on parse_request_line has_byte is_token is_valid_target
    is_valid_version parse_fields parse_field count_hosts parse_body split_target strip_slash
    parse_content_type header_in type_params
parse_post = refl

parse-IsSelfDelimited_example : IsSelfDelimited post_raw post_message
parse-IsSelfDelimited_example = parse-IsSelfDelimited post_raw (omega arith) parse_post

parse-IsWellFormed_example : IsWellFormed post_message
parse-IsWellFormed_example = parse-IsWellFormed post_raw parse_post

-- A head that declares both framings is refused.
inspect_smuggled :
    inspect (
      codes
        "POST / HTTP/1.1\r\nHost: x\r\nContent-Length: 3\r\nTransfer-Encoding: chunked\r\n\r\nabc")
    ≡ refuse Framing.bad_request
unfolding inspect inspect_head inspect_body head_bounds cut_seq strip_prefix scan_head cut lines_of
    scan_lines scan_line strip_cr scan_content trim drop_while drop_while_end scan_field iequals
    same lower scan_length scan_encoding parse_decimal read_digits line_endings_ok first_line
    version_at_least_11 endings_ok split_on
inspect_smuggled = refl

-- A head with no header line is refused, although RFC 9112 has it end with CRLFCRLF.
inspect_bare : inspect (codes "GET / HTTP/1.1\r\n\r\n") ≡ refuse Framing.bad_request
unfolding inspect inspect_head inspect_body head_bounds cut_seq strip_prefix scan_head cut strip_cr
    line_endings_ok first_line version_at_least_11 endings_ok split_on
inspect_bare = refl

abbrev chunks : Bytes
chunks = codes "3;x\r\nabc\r\n0\r\nT: u\r\n\r\nGET /"

chunks_scanned : Completes chunks (codes "abc") 21
unfolding scan_chunked scan_chunks chunk_size read_size hex_value skip_trailers cut_seq strip_prefix
chunks_scanned = refl

scan_chunked_iff_example : Completes chunks (codes "abc") 21 ↔ (
    (w : Bytes) × (rest : Bytes) × (chunks ≡ w ++ rest)
    × (length w ≡ 21)
    × IsCoding w (codes "abc"))
scan_chunked_iff_example = scan_chunked_iff chunks (codes "abc") 21

scan_head-IsConsistent_example :
    IsConsistent (scan_head (codes "GET / HTTP/1.1\r\nContent-Length: 3"))
scan_head-IsConsistent_example =
    scan_head-IsConsistent (codes "GET / HTTP/1.1\r\nContent-Length: 3")
