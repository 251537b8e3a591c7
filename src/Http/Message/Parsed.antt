-- ===== src/Http/Message/Parsed.antt =====
-- What a successful `parse` went through, step by step.
use vermell.Http.Head.{Bounds, head_bounds, scan_head, first_line, line_endings_ok}
use vermell.Http.Message.{
  Message, RequestLine, parse_request_line, parse_fields, parse_body, count_hosts, host_ok,
  assemble, parse_head, parse,
}
use vermell.Prelude.{
  ℕ, ◌≡◌, inl, inr, true, false, some, List, arith, Option-cases, Bytes, lines_of,
}

pub record Parsed (raw : Bytes) (m : Message) : Type 0 where
  pub bounds : Bounds
  pub found : head_bounds raw ≡ some bounds
  pub not_bad : (scan_head bounds.head).bad ≡ false
  pub not_encoded : (scan_head bounds.head).transfer_encoding ≡ false
  pub not_many : (scan_head bounds.head).too_many ≡ false
  pub endings : line_endings_ok bounds.head bounds.separator ≡ true
  pub line : RequestLine
  pub line_parsed : parse_request_line (first_line bounds.head).0 ≡ some line
  pub fields : List (Bytes × Bytes)
  pub fields_parsed : parse_fields (lines_of b'\n' (first_line bounds.head).1) ≡ some fields
  pub host : host_ok (count_hosts fields) line.version ≡ true
  pub content : Bytes × ℕ
  pub body_parsed : parse_body (scan_head bounds.head) bounds.tail ≡ some content
  pub assembled : assemble line fields content ≡ m

-- Every step of a parse that succeeds has succeeded.
pub parse-Parsed : (raw : Bytes) {m : Message} → parse raw ≡ some m → Parsed raw m
unfolding parse parse_head
parse-Parsed raw {m} h = elim (Option-cases (head_bounds raw)) [
  | inl missing ↦ ground arith
  | inr (b, found) ↦ elim (Option-cases (parse_request_line (first_line b.head).0)) [
    | inl refused ↦ ground arith
    | inr (line, el) ↦ elim (Option-cases (parse_fields (lines_of b'\n' (first_line b.head).1))) [
      | inl refused ↦ ground arith
      | inr (fields, ef) ↦ elim (Option-cases (parse_body (scan_head b.head) b.tail)) [
        | inl refused ↦ ground arith
        | inr (content, eb) ↦ record {
          bounds = b;
          found = found;
          not_bad = ground arith;
          not_encoded = ground arith;
          not_many = ground arith;
          endings = ground arith;
          line = line;
          line_parsed = el;
          fields = fields;
          fields_parsed = ef;
          host = ground arith;
          content = content;
          body_parsed = eb;
          assembled = ground arith;
        }
      ]
    ]
  ]
]
