-- ===== src/Http/Chunked.antt =====
-- De-chunking: `Message::scan_chunked` of include/vermell/http/message.hpp. A position is what is
-- left of the body there; `consumed` is read off the lengths. Both loops take fuel, one more than
-- the bytes left, and each round takes at least two of them.
pub mod Fuel
pub mod Size
pub mod Grammar
use vermell.Http.Text.{hex_value}
use vermell.Prelude.{
  ℕ, zero, suc, ◌+◌, ◌-◌, ◌*◌, ◌/◌, ◌%◌, ◌^◌, ◌≤◌, ◌<◌, min, max, String, ◌≡◌, refl, sym, ap, ◌∙◌,
  subst, ◌≡⟨◌⟩◌, ◌∎, ◌≢◌, ◌↔◌, ◌⊎◌, inl, inr, Bool, true, false, not, ◌&&◌, ◌||◌, Option, none,
  some, List, [], ◌∷◌, ◌++◌, map, append-nil, append_assoc, arith, ltb, leb, ◌==◌, within,
  if◌then◌else◌, ltb→lt, lt→ltb, leb→le, le→leb, ==_iff, tests, Bool-cases, Option-cases, same_iff,
  same_refl, strip_prefix-append, strip_prefix-eq_some, Lacks, cut-eq_some, cut-append, cut-eq_none,
  split_on-eq_singleton, split_on-append, split_on-Lacks, join_with-cons, join_with-split_on, Bytes,
  IsBytes, codes, same, is_empty, strip_prefix, is_some, has_byte, push_front, cut, cut_seq,
  cons_head, split_on, lines_of, drop_while, drop_while_end, join_with, length, take, drop, all,
  any, drop_last, get_last?, length-append, take-length_append, drop-length_append, length-drop,
  length-take_le, take-append-drop, All, All-append, All-append_left, All-append_right,
}

pub data ChunkState : Type 0 where
  complete incomplete malformed : ChunkState

pub record ChunkScanResult : Type 0 where
  pub state : ChunkState
  pub content : Bytes
  pub consumed : ℕ

-- `std::string_view::npos`, the largest 64-bit `size_t`
abbrev pub npos : ℕ
npos = 2 ^ 64 - 1

abbrev pub crlf : Bytes
crlf = b'\r' ∷ b'\n' ∷ []

-- What the digit loop of a size line leaves: an overflow, or whether there was a digit, the value,
-- and the bytes behind the digits.
pub data SizeScan : Type 0 where
  overflow : SizeScan
  stopped : Bool → ℕ → Bytes → SizeScan

unfoldable pub read_size : Bool → ℕ → Bytes → SizeScan
read_size any size [] = stopped any size []
read_size any size (c ∷ s) = elim (hex_value c) [
  | none ↦ stopped any size (c ∷ s)
  | some d ↦ if ltb ((npos - d) / 16) size then overflow else read_size true (size * 16 + d) s
]

-- `none` is malformed. A chunk extension begins with a semicolon.
abbrev pub size_of : SizeScan → Option ℕ
size_of overflow = none
size_of (stopped false size rest) = none
size_of (stopped true size []) = some size
size_of (stopped true size (c ∷ rest)) = if c == b';' then some size else none

unfoldable pub chunk_size : Bytes → Option ℕ
chunk_size line = size_of (read_size false 0 line)

-- The state of the scan when it ends: the chunks so far, and what is left of the body.
pub record ChunkScan : Type 0 where
  pub state : ChunkState
  pub content : Bytes
  pub rest : Bytes

-- The inner loop, over the trailer lines up to an empty one.
unfoldable pub skip_trailers : ℕ → Bytes → Bytes → ChunkScan
skip_trailers zero content body = record { state = incomplete; content = content; rest = body }
skip_trailers (suc fuel) content body = elim (cut_seq crlf body) [
  | none ↦ record { state = incomplete; content = content; rest = body }
  | some ([], after) ↦ record { state = complete; content = content; rest = after }
  | some (_ ∷ _, after) ↦ skip_trailers fuel content after
]

-- The bytes behind a chunk: `none` while they have not arrived, `some none` if they are no CRLF.
abbrev pub chunk_end : Bytes → Option (Option Bytes)
chunk_end [] = none
chunk_end (c ∷ []) = none
chunk_end (c ∷ d ∷ rest) = some (if c == b'\r' && d == b'\n' then some rest else none)

abbrev pub stop_scan : ChunkState → Bytes → Bytes → ChunkScan
stop_scan state content body = record { state = state; content = content; rest = body }

unfoldable pub scan_chunks : ℕ → Bytes → Bytes → ChunkScan
scan_chunks zero content body = stop_scan incomplete content body
scan_chunks (suc fuel) content body = elim (cut_seq crlf body) [
  | none ↦ stop_scan incomplete content body
  | some (line, after) ↦ elim (chunk_size line) [
    | none ↦ stop_scan malformed content body
    | some zero ↦ skip_trailers (suc (length after)) content after
    | some (suc n) ↦ elim (ltb (length after) (suc n)) [
      | true ↦ stop_scan incomplete content after
      | false ↦ elim (chunk_end (drop (suc n) after)) [
        | none ↦ stop_scan incomplete (content ++ take (suc n) after) after
        | some none ↦ stop_scan malformed (content ++ take (suc n) after) after
        | some (some rest) ↦ scan_chunks fuel (content ++ take (suc n) after) rest
      ]
    ]
  ]
]

-- `consumed` is set on completion only.
abbrev pub result_of : Bytes → ChunkScan → ChunkScanResult
result_of body scan = record {
  state = scan.state;
  content = scan.content;
  consumed = elim scan.state [ complete ↦ length body - length scan.rest | _ ↦ 0 ];
}

unfoldable pub scan_chunked : Bytes → ChunkScanResult
scan_chunked body = result_of body (scan_chunks (suc (length body)) [] body)
