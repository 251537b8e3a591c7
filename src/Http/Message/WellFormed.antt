-- ===== src/Http/Message/WellFormed.antt =====
-- What every message that `parse` of include/vermell/http/message.hpp returns satisfies.
use vermell.Http.Head.{
  max_headers, HeadScan, scan_head, strip_cr, is_token, is_valid_target, is_valid_version,
  first_line,
}
use vermell.Http.Head.Scan.{
  IsConsistent, scan_head-IsConsistent, field_count, scan_head-field_count,
}
use vermell.Http.Message.{
  Message, RequestLine, parse_request_line, parse_field, parse_fields, parse_body, count_hosts,
  host_ok, parse,
}
use vermell.Http.Message.Parsed.{parse-Parsed}
use vermell.Prelude.{
  ℕ, suc, ◌≤◌, ◌≡◌, refl, ap, subst, inl, inr, true, some, List, [], ◌∷◌, arith, Bool-cases,
  Option-cases, Bytes, is_empty, cut, lines_of, some-injective, length, length-take_le, All,
}

pub record IsRequestLine (line : RequestLine) : Type 0 where
  pub method_token : is_token line.method ≡ true
  pub target_valid : is_valid_target line.target ≡ true
  pub version_valid : is_valid_version line.version ≡ true

parse_request_line-IsRequestLine :
    (s : Bytes) {line : RequestLine} → parse_request_line s ≡ some line → IsRequestLine line
unfolding parse_request_line
parse_request_line-IsRequestLine s {line} h = elim (Option-cases (cut b' ' s)) [
  | inl missing ↦ ground (arith, missing)
  | inr ((method, behind), e) ↦ elim (Option-cases (cut b' ' behind)) [
    | inl missing ↦ ground (arith, e, missing)
    | inr ((target, version), e') ↦ ground (arith, e, e')
  ]
]

abbrev pub HasTokenName : Bytes × Bytes → Type 0
HasTokenName h = is_token h.0 ≡ true

parse_field-HasTokenName :
    (line : Bytes) {f : Bytes × Bytes} → parse_field line ≡ some f → HasTokenName f
unfolding parse_field
parse_field-HasTokenName line {f} h = elim (Option-cases (cut b':' line)) [
  | inl missing ↦ ground (arith, missing)
  | inr ((before, after), e) ↦ ground (arith, e)
]

-- The fields parsed are those of the lines that are not empty, each with a token for a name.
parse_fields_lem :
    (lines : List Bytes) {fs : List (Bytes × Bytes)}
    → parse_fields lines ≡ some fs
    → All HasTokenName fs × (length fs ≡ field_count lines)
unfolding parse_fields field_count
parse_fields_lem [] {fs} h = rw (← some-injective h) (tt, refl)
parse_fields_lem (line ∷ lines) {fs} h = elim (Bool-cases (is_empty (strip_cr line))) [
  | inl empty ↦ rw empty (parse_fields_lem lines (rw empty at h))
  | inr full ↦ elim (Option-cases (parse_field (strip_cr line))) [
    | inl refused ↦ ground arith
    | inr (f, e) ↦ elim (Option-cases (parse_fields lines)) [
      | inl refused ↦ ground arith
      | inr (more, e') ↦
          let (named, count) = parse_fields_lem lines e' in
          let same_fields : fs ≡ f ∷ more = ground arith in
          rw (full, same_fields) ((parse_field-HasTokenName (strip_cr line) e, named), ap suc count)
    ]
  ]
]

parse_body-length :
    (scan : HeadScan) (tail : Bytes) {content : Bytes × ℕ}
    → IsConsistent scan
    → parse_body scan tail ≡ some content
    → length content.0 ≡ content.1
unfolding parse_body
parse_body-length scan tail c h =
    ground (arith, c.declared, length-take_le scan.content_length tail)

pub record IsWellFormed (m : Message) : Type 0 where
  -- The method is a token, the target has no space or control character, the version is
  -- HTTP/DIGIT.DIGIT.
  pub line : IsRequestLine (record { method = m.method; target = m.target; version = m.version })
  -- The body has exactly the length that the message reports.
  pub body_length : length m.body ≡ m.content_length
  pub header_names : All HasTokenName m.headers
  pub header_count : length m.headers ≤ max_headers
  -- One Host header, or none in a request of HTTP/1.0.
  pub host : host_ok (count_hosts m.headers) m.version ≡ true

-- Every parsed message has a well-formed request line, at most a hundred headers, each with a token
-- for a name, a single Host header (or none in HTTP/1.0), and a body of exactly its content length.
pub parse-IsWellFormed : (raw : Bytes) {m : Message} → parse raw ≡ some m → IsWellFormed m
parse-IsWellFormed raw {m} h =
    let p = parse-Parsed raw h in
    let (named, count) =
      parse_fields_lem (lines_of b'\n' (first_line p.bounds.head).1) p.fields_parsed in
    subst IsWellFormed p.assembled (record {
      line = parse_request_line-IsRequestLine (first_line p.bounds.head).0 p.line_parsed;
      body_length =
          parse_body-length (scan_head p.bounds.head) p.bounds.tail
            (scan_head-IsConsistent p.bounds.head) p.body_parsed;
      header_names = named;
      header_count = omega (arith, count, scan_head-field_count p.bounds.head p.not_bad p.not_many);
      host = p.host;
    })
