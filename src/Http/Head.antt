-- ===== src/Http/Head.antt =====
-- The head of a request: `head_bounds`, `scan_head`, the line-ending policy and the character
-- tests of include/vermell/http/message.hpp.
pub mod Terminator
pub mod Scan
use vermell.Http.Text.{iequals, trim}
use vermell.Http.Chunked.{crlf}
use vermell.Prelude.Decimal.{is_digit, parse_decimal}
use vermell.Prelude.{
  ℕ, zero, suc, ◌+◌, ◌-◌, ◌*◌, ◌/◌, ◌%◌, ◌^◌, ◌≤◌, ◌<◌, min, max, String, ◌≡◌, refl, sym, ap, ◌∙◌,
  subst, ◌≡⟨◌⟩◌, ◌∎, ◌≢◌, ◌↔◌, ◌⊎◌, inl, inr, Bool, true, false, not, ◌&&◌, ◌||◌, Option, none,
  some, List, [], ◌∷◌, ◌++◌, map, append-nil, append_assoc, arith, ltb, leb, ◌==◌, within,
  if◌then◌else◌, ltb→lt, lt→ltb, leb→le, le→leb, ==_iff, tests, Bool-cases, Option-cases, same_iff,
  same_refl, strip_prefix-append, strip_prefix-eq_some, Lacks, cut-eq_some, cut-append, cut-eq_none,
  split_on-eq_singleton, split_on-append, split_on-Lacks, join_with-cons, join_with-split_on, Bytes,
  IsBytes, codes, same, is_empty, strip_prefix, is_some, has_byte, push_front, cut, cut_seq,
  cons_head, split_on, lines_of, drop_while, drop_while_end, join_with, length, take, drop, all,
  any, drop_last, get_last?, length-append, take-length_append, drop-length_append, length-drop,
  length-take_le, take-append-drop, All, All-append, All-append_left, All-append_right,
}

abbrev pub max_headers : ℕ
max_headers = 100

abbrev pub max_header_line : ℕ
max_header_line = 64 * 1024

-- The head, the size of its terminator and what follows that.
pub record Bounds : Type 0 where
  pub head : Bytes
  pub separator : ℕ
  pub tail : Bytes

abbrev pub crlf_crlf : Bytes
crlf_crlf = b'\r' ∷ b'\n' ∷ b'\r' ∷ b'\n' ∷ []

abbrev pub lf_lf : Bytes
lf_lf = b'\n' ∷ b'\n' ∷ []

-- From the cuts at CRLFCRLF and at a bare LFLF: the one that comes first.
abbrev pub first_bounds : Option (Bytes × Bytes) → Option (Bytes × Bytes) → Option Bounds
first_bounds none none = none
first_bounds none (some (head, tail)) = some (record { head = head; separator = 2; tail = tail })
first_bounds (some (head, tail)) none = some (record { head = head; separator = 4; tail = tail })
first_bounds (some (head, tail)) (some (head', tail')) =
    if ltb (length head') (length head)
    then some (record { head = head'; separator = 2; tail = tail' })
    else some (record { head = head; separator = 4; tail = tail })

unfoldable pub head_bounds : Bytes → Option Bounds
head_bounds raw = first_bounds (cut_seq crlf_crlf raw) (cut_seq lf_lf raw)

-- `if (!line.empty() && line.back() == '\r') line.remove_suffix(1);`
unfoldable pub strip_cr : Bytes → Bytes
strip_cr [] = []
strip_cr (c ∷ []) = if c == b'\r' then [] else c ∷ []
strip_cr (c ∷ d ∷ s) = c ∷ strip_cr (d ∷ s)

abbrev pub ends_with_cr : Bytes → Bool
ends_with_cr [] = false
ends_with_cr (c ∷ []) = c == b'\r'
ends_with_cr (c ∷ d ∷ s) = ends_with_cr (d ∷ s)

-- The line begins with a space or a tab.
abbrev pub is_fold : Bytes → Bool
is_fold [] = false
is_fold (c ∷ _) = c == b' ' || c == b'\t'

pub record HeadScan : Type 0 where
  pub content_length : ℕ
  pub has_content_length : Bool
  pub bad : Bool
  pub transfer_encoding : Bool
  pub chunked : Bool
  pub too_many : Bool

abbrev pub new_scan : HeadScan
new_scan = record {
  content_length = 0;
  has_content_length = false;
  bad = false;
  transfer_encoding = false;
  chunked = false;
  too_many = false;
}

abbrev pub mark_bad : HeadScan → HeadScan
mark_bad scan = record scan { bad = true }

-- One round of the loop of `scan_head`: it returns, or goes on with a count of fields.
pub data ScanStep : Type 0 where
  stop : HeadScan → ScanStep
  next : ℕ → HeadScan → ScanStep

unfoldable pub scan_length : ℕ → HeadScan → Bytes → ScanStep
scan_length count scan value =
    if scan.chunked || scan.transfer_encoding
    then stop (mark_bad scan)
    else elim (parse_decimal (2 ^ 64) value) [
      | none ↦ stop (mark_bad scan)
      | some n ↦
          if scan.has_content_length && not (scan.content_length == n)
          then stop (mark_bad scan)
          else next count (record scan { has_content_length = true; content_length = n })
    ]

unfoldable pub scan_encoding : ℕ → HeadScan → Bytes → ScanStep
scan_encoding count scan value =
    if scan.has_content_length || scan.chunked || scan.transfer_encoding
    then stop (mark_bad scan)
    else if iequals (trim value) (codes "chunked")
    then next count (record scan { chunked = true })
    else next count (record scan { transfer_encoding = true })

unfoldable pub scan_field : ℕ → HeadScan → Bytes → Bytes → ScanStep
scan_field count scan name value =
    if iequals name (codes "content-length")
    then scan_length count scan value
    else if iequals name (codes "transfer-encoding")
    then scan_encoding count scan value
    else next count scan

-- A line with no colon, or with nothing before it, is left to `parse`.
unfoldable pub scan_content : ℕ → HeadScan → Bytes → ScanStep
scan_content count scan line = elim (cut b':' line) [
  | none ↦ next count scan
  | some ([], after) ↦ next count scan
  | some (c ∷ before, after) ↦ scan_field count scan (trim (c ∷ before)) (trim after)
]

unfoldable pub scan_line : ℕ → HeadScan → Bytes → ScanStep
scan_line count scan line =
    if ltb max_header_line (length line)
    then stop (mark_bad scan)
    else if is_empty (strip_cr line)
    then next count scan
    else if ltb max_headers (count + 1)
    then stop (record scan { too_many = true })
    else if is_fold (strip_cr line)
    then stop (mark_bad scan)
    else scan_content (count + 1) scan (strip_cr line)

unfoldable pub scan_lines : ℕ → HeadScan → List Bytes → HeadScan
scan_lines count scan [] = scan
scan_lines count scan (line ∷ lines) = elim (scan_line count scan line) [
  | stop result ↦ result
  | next count' scan' ↦ scan_lines count' scan' lines
]

unfoldable pub scan_head : Bytes → HeadScan
scan_head head = elim (cut b'\n' head) [
  | none ↦ new_scan
  | some (request_line, fields) ↦
      if ltb max_header_line (length request_line)
      then mark_bad new_scan
      else scan_lines 0 new_scan (lines_of b'\n' fields)
]

abbrev pub is_alnum : ℕ → Bool
is_alnum c = is_digit c || within b'A' b'Z' c || within b'a' b'z' c

abbrev pub is_tchar : ℕ → Bool
is_tchar c =
    is_alnum c
    || c == b'!'
    || c == b'#'
    || c == b'$'
    || c == b'%'
    || c == b'&'
    || c == 0x27
    || c == b'*'
    || c == b'+'
    || c == b'-'
    || c == b'.'
    || c == b'^'
    || c == b'_'
    || c == b'`'
    || c == b'|'
    || c == b'~'

unfoldable pub is_token : Bytes → Bool
is_token s = not (is_empty s) && all is_tchar s

unfoldable pub is_valid_target : Bytes → Bool
is_valid_target s = not (is_empty s) && all (λ c. not (leb c 0x20 || c == 0x7f)) s

-- The three bytes behind "HTTP/": a digit, a dot and a digit.
abbrev pub digit_dot_digit : Bytes → Bool
digit_dot_digit (major ∷ dot ∷ minor ∷ []) = is_digit major && dot == b'.' && is_digit minor
digit_dot_digit _ = false

unfoldable pub is_valid_version : Bytes → Bool
is_valid_version v = elim (strip_prefix (codes "HTTP/") v) [
  | none ↦ false
  | some rest ↦ digit_dot_digit rest
]

abbrev pub at_least_11 : Bytes → Bool
at_least_11 (major ∷ dot ∷ minor ∷ []) =
    if not (is_digit major) || not (dot == b'.') || not (is_digit minor)
    then false
    else if ltb major b'1'
    then false
    else if ltb b'1' major
    then true
    else leb b'1' minor
at_least_11 _ = false

unfoldable pub version_at_least_11 : Bytes → Bool
version_at_least_11 request_line = elim (cut_seq (codes "HTTP/") (strip_cr request_line)) [
  | none ↦ false
  | some (_, rest) ↦ at_least_11 rest
]

-- Every line but the last is empty or ends with a carriage return.
unfoldable pub endings_ok : List Bytes → Bool
endings_ok [] = true
endings_ok (line ∷ []) = true
endings_ok (line ∷ more ∷ lines) = (is_empty line || ends_with_cr line) && endings_ok (more ∷ lines)

-- The first line of a head, and the header lines behind it.
unfoldable pub first_line : Bytes → Bytes × Bytes
first_line head = elim (cut b'\n' head) [ none ↦ (head, []) | some (line, rest) ↦ (line, rest) ]

unfoldable pub line_endings_ok : Bytes → ℕ → Bool
line_endings_ok head separator =
    if not (version_at_least_11 (first_line head).0)
    then true
    else if not (separator == 4)
    then false
    else if not (ends_with_cr (first_line head).0)
    then false
    else endings_ok (split_on b'\n' (first_line head).1)
