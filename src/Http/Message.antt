-- ===== src/Http/Message.antt =====
-- `Message::inspect` and `Message::parse` of include/vermell/http/message.hpp. A view into the raw
-- request is the bytes it shows.
pub mod Agreement
pub mod Locality
pub mod Parsed
pub mod WellFormed
use vermell.Http.Text.{iequals, trim, lower}
use vermell.Http.Chunked.{ChunkState, ChunkScanResult, npos, scan_chunked}
use vermell.Http.Head.{
  max_headers, max_header_line, Bounds, head_bounds, strip_cr, is_fold, HeadScan, scan_head,
  is_token, is_valid_target, is_valid_version, first_line, line_endings_ok,
}
use vermell.Prelude.{
  ℕ, zero, suc, ◌+◌, ◌-◌, ◌*◌, ◌/◌, ◌%◌, ◌^◌, ◌≤◌, ◌<◌, min, max, String, ◌≡◌, refl, sym, ap, ◌∙◌,
  subst, ◌≡⟨◌⟩◌, ◌∎, ◌≢◌, ◌↔◌, ◌⊎◌, inl, inr, Bool, true, false, not, ◌&&◌, ◌||◌, Option, none,
  some, List, [], ◌∷◌, ◌++◌, map, append-nil, append_assoc, arith, ltb, leb, ◌==◌, within,
  if◌then◌else◌, ltb→lt, lt→ltb, leb→le, le→leb, ==_iff, tests, Bool-cases, Option-cases, same_iff,
  same_refl, strip_prefix-append, strip_prefix-eq_some, Lacks, cut-eq_some, cut-append, cut-eq_none,
  split_on-eq_singleton, split_on-append, split_on-Lacks, join_with-cons, join_with-split_on, Bytes,
  IsBytes, codes, same, is_empty, strip_prefix, is_some, has_byte, push_front, cut, cut_seq,
  cons_head, split_on, lines_of, drop_while, drop_while_end, join_with, ◌>>=◌, ◌>>◌, guard,
  >>=-eq-some, guard-eq-some, length, take, drop, all, any, drop_last, get_last?, length-append,
  take-length_append, drop-length_append, length-drop, length-take_le, take-append-drop, All,
  All-append, All-append_left, All-append_right,
}

pub data Framing : Type 0 where
  complete incomplete bad_request too_many_headers not_implemented : Framing

pub record Inspection : Type 0 where
  pub framing : Framing
  pub expected : ℕ

abbrev pub refuse : Framing → Inspection
refuse framing = record { framing = framing; expected = 0 }

-- A head that has not fully arrived: its lines so far, the last one partial.
unfoldable pub inspect_partial : ℕ → List Bytes → Inspection
inspect_partial lines [] = refuse Framing.incomplete
inspect_partial lines (line ∷ []) =
    if ltb max_header_line (length line)
    then refuse Framing.bad_request
    else refuse Framing.incomplete
inspect_partial lines (line ∷ more ∷ rest) =
    let later = inspect_partial (lines + 1) (more ∷ rest) in
    if ltb (max_headers + 1) (lines + 1)
    then refuse Framing.too_many_headers
    else if ltb max_header_line (length line)
    then refuse Framing.bad_request
    else later

abbrev pub inspect_chunks : ℕ → ChunkScanResult → Inspection
inspect_chunks base result = elim result.state [
  | ChunkState.complete ↦ record { framing = Framing.complete; expected = base + result.consumed }
  | ChunkState.malformed ↦ refuse Framing.bad_request
  | ChunkState.incomplete ↦ refuse Framing.incomplete
]

-- head + declared body, saturated at `npos`
abbrev pub total_size : ℕ → ℕ → ℕ
total_size base content_length =
    if ltb (npos - base) content_length then npos else base + content_length

-- The body's framing, at a head of which the scan found nothing wrong.
unfoldable pub inspect_body : Bytes → Bounds → HeadScan → Inspection
inspect_body raw b scan =
    if scan.chunked
    then inspect_chunks (length b.head + b.separator) (scan_chunked b.tail)
    else let total = total_size (length b.head + b.separator) scan.content_length in
      record {
        framing = if leb total (length raw) then Framing.complete else Framing.incomplete;
        expected = total;
      }

unfoldable pub inspect_head : Bytes → Bounds → HeadScan → Inspection
inspect_head raw b scan =
    if scan.too_many
    then refuse Framing.too_many_headers
    else if scan.bad
    then refuse Framing.bad_request
    else if scan.transfer_encoding
    then refuse Framing.not_implemented
    else if not (line_endings_ok b.head b.separator)
    then refuse Framing.bad_request
    else inspect_body raw b scan

unfoldable pub inspect : Bytes → Inspection
inspect raw = elim (head_bounds raw) [
  | none ↦ inspect_partial 0 (split_on b'\n' raw)
  | some b ↦ inspect_head raw b (scan_head b.head)
]

pub record Message : Type 0 where
  pub method : Bytes
  pub target : Bytes
  pub path : Bytes
  pub query : Bytes
  pub version : Bytes
  pub body : Bytes
  pub headers : List (Bytes × Bytes)
  pub content_length : ℕ
  pub content_type : Bytes
  pub content_type_params : List (Bytes × Bytes)

-- METHOD SP TARGET SP VERSION
pub record RequestLine : Type 0 where
  pub method : Bytes
  pub target : Bytes
  pub version : Bytes

unfoldable pub parse_request_line : Bytes → Option RequestLine
parse_request_line line = do
  (method, behind) ← cut b' ' line
  guard (not (is_empty method))
  (target, version) ← cut b' ' behind
  guard (not (is_empty target))
  guard (not (has_byte b' ' version))
  guard (is_token method && is_valid_target target && is_valid_version (strip_cr version))
  some (record { method = method; target = target; version = strip_cr version })

-- The path without one trailing slash, unless it is the root.
unfoldable pub strip_slash : Bytes → Bytes
strip_slash [] = []
strip_slash (c ∷ []) = c ∷ []
strip_slash (c ∷ d ∷ []) = if d == b'/' then c ∷ [] else c ∷ d ∷ []
strip_slash (c ∷ d ∷ e ∷ s) = c ∷ strip_slash (d ∷ e ∷ s)

-- Path and query of a target.
unfoldable pub split_target : Bytes → Bytes × Bytes
split_target target = elim (cut b'?' target) [
  | none ↦ (strip_slash target, [])
  | some (path, query) ↦ (strip_slash path, query)
]

unfoldable pub parse_field : Bytes → Option (Bytes × Bytes)
parse_field line = do
  guard (not (is_fold line))
  (before, after) ← cut b':' line
  guard (not (is_empty before))
  guard (is_token (trim before))
  some (trim before, trim after)

-- The loop over the header lines; empty ones are skipped.
unfoldable pub parse_fields : List Bytes → Option (List (Bytes × Bytes))
parse_fields [] = some []
parse_fields (line ∷ lines) =
    let rest = parse_fields lines in
    let fields = parse_field (strip_cr line) >>= λ field. rest >>= λ more. some (field ∷ more) in
    if is_empty (strip_cr line) then rest else fields

abbrev pub host : Bytes
host = codes "Host"

unfoldable pub count_hosts : List (Bytes × Bytes) → ℕ
count_hosts [] = 0
count_hosts ((name, value) ∷ headers) =
    if iequals name host then suc (count_hosts headers) else count_hosts headers

-- One Host header; none only for HTTP/1.0.
abbrev pub host_ok : ℕ → Bytes → Bool
host_ok zero version = is_some (strip_prefix (codes "HTTP/1.0") version)
host_ok (suc zero) version = true
host_ok (suc (suc n)) version = false

-- The body, and the content length that the message reports.
unfoldable pub parse_body : HeadScan → Bytes → Option (Bytes × ℕ)
parse_body scan tail =
    if scan.has_content_length && ltb 0 scan.content_length
    then if ltb (length tail) scan.content_length
      then none
      else some (take scan.content_length tail, scan.content_length)
    else if scan.chunked
    then elim (scan_chunked tail).state [
      | ChunkState.complete ↦ some ((scan_chunked tail).content, length (scan_chunked tail).content)
      | _ ↦ none
    ]
    else some ([], scan.content_length)

-- `header(name)`: the first header of that name, empty if there is none.
unfoldable pub header_in : List (Bytes × Bytes) → Bytes → Bytes
header_in [] name = []
header_in ((hname, hvalue) ∷ headers) name =
    if iequals hname name then hvalue else header_in headers name

-- `val.substr(1, val.size() - 2)` between two quotes
abbrev pub unquote : Bytes → Bytes
unquote [] = []
unquote (c ∷ []) = c ∷ []
unquote (c ∷ d ∷ s) = elim (get_last? (d ∷ s)) [
  | none ↦ c ∷ d ∷ s
  | some l ↦ if c == b'"' && l == b'"' then drop_last (d ∷ s) else c ∷ d ∷ s
]

unfoldable pub type_params : List Bytes → List (Bytes × Bytes)
type_params [] = []
type_params (pair ∷ pairs) = elim (cut b'=' pair) [
  | none ↦ type_params pairs
  | some (key, val) ↦ (lower (trim key), unquote (trim val)) ∷ type_params pairs
]

-- The media type, lowercased, and its parameters.
unfoldable pub parse_content_type : Bytes → Bytes × List (Bytes × Bytes)
parse_content_type [] = ([], [])
parse_content_type (c ∷ value) = elim (cut b';' (c ∷ value)) [
  | none ↦ (lower (trim (c ∷ value)), [])
  | some (media, params) ↦ (lower (trim media), type_params (lines_of b';' params))
]

abbrev pub assemble : RequestLine → List (Bytes × Bytes) → Bytes × ℕ → Message
assemble line headers (body, content_length) = record {
  method = line.method;
  target = line.target;
  path = (split_target line.target).0;
  query = (split_target line.target).1;
  version = line.version;
  body = body;
  headers = headers;
  content_length = content_length;
  content_type = (parse_content_type (header_in headers (codes "Content-Type"))).0;
  content_type_params = (parse_content_type (header_in headers (codes "Content-Type"))).1;
}

-- `parse` at a head of known bounds and scan.
unfoldable pub parse_head : Bounds → HeadScan → Option Message
parse_head b scan = do
  guard (not (scan.bad || scan.transfer_encoding || scan.too_many))
  guard (line_endings_ok b.head b.separator)
  line ← parse_request_line (first_line b.head).0
  headers ← parse_fields (lines_of b'\n' (first_line b.head).1)
  guard (host_ok (count_hosts headers) line.version)
  body ← parse_body scan b.tail
  some (assemble line headers body)

unfoldable pub parse : Bytes → Option Message
parse raw = do b ← head_bounds raw; parse_head b (scan_head b.head)

-- `header`, `has_header` and `content_type_param` of a message.
unfoldable pub header : Message → Bytes → Bytes
header m name = header_in m.headers name

unfoldable pub has_header : Message → Bytes → Bool
has_header m name = any (λ h. iequals h.0 name) m.headers

unfoldable pub param_in : List (Bytes × Bytes) → Bytes → Option Bytes
param_in [] key = none
param_in ((k, v) ∷ params) key = if same k key then some v else param_in params key

abbrev pub content_type_param : Message → Bytes → Option Bytes
content_type_param m key = param_in m.content_type_params key
