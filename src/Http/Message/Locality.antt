-- ===== src/Http/Message/Locality.antt =====
-- A request ends where `inspect` of include/vermell/http/message.hpp says, and what follows it, such
-- as a pipelined request or bytes that an attacker appends, has no influence on it.
use vermell.Http.Chunked.{complete, ChunkScanResult, npos, scan_chunked}
use vermell.Http.Chunked.Grammar.{scan_chunked_sound, scan_chunked_complete}
use vermell.Http.Head.{Bounds, HeadScan, scan_head}
use vermell.Http.Head.Scan.{IsConsistent, scan_head-IsConsistent}
use vermell.Http.Head.Terminator.{head_bounds-IsBounded}
use vermell.Http.Message.{Framing, inspect_body, inspect, Message, parse_body, parse_head, parse}
use vermell.Http.Message.Agreement.{inspect_head-inspect_body}
use vermell.Http.Message.Parsed.{Parsed, parse-Parsed}
use vermell.Prelude.{
  ℕ, ◌+◌, ◌≤◌, ◌≡◌, sym, ap, ◌∙◌, inl, inr, true, false, some, ◌++◌, append_assoc, arith,
  Bool-cases, Bytes, length, take, drop, length-append, length-take_le, take-append-drop,
  take-append_of_length,
}

-- The body is `taken`, whatever follows it.
pub record IsDelimited (scan : HeadScan) (tail : Bytes) (content : Bytes × ℕ) : Type 0 where
  pub taken : Bytes
  pub rest : Bytes
  pub splits : tail ≡ taken ++ rest
  pub parsed : (t : Bytes) → parse_body scan (taken ++ t) ≡ some content
  pub plain : scan.chunked ≡ false → scan.content_length ≡ length taken
  pub chunks :
      scan.chunked ≡ true
      → (t : Bytes)
      → ((scan_chunked (taken ++ t)).state ≡ complete)
        × ((scan_chunked (taken ++ t)).consumed ≡ length taken)

chunked-IsDelimited :
    (scan : HeadScan) (tail : Bytes) {content : Bytes × ℕ}
    → IsConsistent scan
    → scan.chunked ≡ true
    → parse_body scan tail ≡ some content
    → IsDelimited scan tail content
unfolding parse_body
chunked-IsDelimited scan tail {content} c e h =
    let r = scan_chunked tail in
    let done : r.state ≡ complete = ground (arith, c.exclusive) in
    let (w, rest, split, size, t) =
      scan_chunked_sound tail r.content r.consumed
        (λ i. record { state = done i; content = r.content; consumed = r.consumed }) in
    record {
      taken = w;
      rest = rest;
      splits = split;
      parsed = λ t'. ground (
        arith,
        c.exclusive,
        done,
        ap (λ (q : ChunkScanResult). q.state) (scan_chunked_complete t' t),
        ap (λ (q : ChunkScanResult). q.content) (scan_chunked_complete t' t),
      );
      plain = λ p. absurd (cc);
      chunks = λ _ t'. (
        ap (λ (q : ChunkScanResult). q.state) (scan_chunked_complete t' t),
        ap (λ (q : ChunkScanResult). q.consumed) (scan_chunked_complete t' t),
      );
    }

length-IsDelimited :
    (scan : HeadScan) (tail : Bytes) {content : Bytes × ℕ}
    → IsConsistent scan
    → scan.chunked ≡ false
    → parse_body scan tail ≡ some content
    → IsDelimited scan tail content
unfolding parse_body
length-IsDelimited scan tail {content} c e h =
    let n = scan.content_length in
    let fits : n ≤ length tail = ground (arith, c.declared) in
    let size = length-take_le n tail fits in
    record {
      taken = take n tail;
      rest = drop n tail;
      splits = sym (take-append-drop n tail);
      parsed = λ t'. ground (
        arith,
        c.declared,
        take-append_of_length n (take n tail) t' size,
        length-append {0} (take n tail) t',
        size,
        fits,
      );
      plain = λ _. sym size;
      chunks = λ p. absurd (cc);
    }

parse_body-IsDelimited :
    (scan : HeadScan) (tail : Bytes) {content : Bytes × ℕ}
    → IsConsistent scan
    → parse_body scan tail ≡ some content
    → IsDelimited scan tail content
parse_body-IsDelimited scan tail c h = elim (Bool-cases scan.chunked) [
  | inl chunked ↦ chunked-IsDelimited scan tail c chunked h
  | inr plain ↦ length-IsDelimited scan tail c plain h
]

-- What `inspect` says of a delimited body, with any bytes behind it.
inspect_body_lem :
    (raw : Bytes) (b : Bounds) (scan : HeadScan) {tail : Bytes} {content : Bytes × ℕ}
    (d : IsDelimited scan tail content) (t : Bytes)
    → length b.head + b.separator + length d.taken ≤ npos
    → length b.head + b.separator + length d.taken ≤ length raw
    → inspect_body raw (record b { tail = d.taken ++ t }) scan ≡ record {
      framing = Framing.complete;
      expected = length b.head + b.separator + length d.taken;
    }
unfolding inspect_body
inspect_body_lem raw b scan d t small fits = elim (Bool-cases scan.chunked) [
  | inl chunked ↦ ground (arith, d.chunks chunked t)
  | inr plain ↦ ground (arith, d.plain plain)
]

parse_head_lem :
    {raw : Bytes} {m : Message} (p : Parsed raw m) (t : Bytes)
    → parse_body (scan_head p.bounds.head) t ≡ some p.content
    → parse_head (record p.bounds { tail = t }) (scan_head p.bounds.head) ≡ some m
unfolding parse_head
parse_head_lem {m} p t h = ground (
  arith, p.not_bad, p.not_encoded, p.not_many, p.endings, p.line_parsed, p.fields_parsed, p.host,
  p.assembled,
)

-- `raw` begins with the bytes of one request, which are read as the message `m` whatever follows.
pub record IsSelfDelimited (raw : Bytes) (m : Message) : Type 0 where
  pub request : Bytes
  pub rest : Bytes
  pub splits : raw ≡ request ++ rest
  pub parsed : (t : Bytes) → parse (request ++ t) ≡ some m
  pub inspected :
      (t : Bytes)
      → inspect (request ++ t) ≡ record { framing = Framing.complete; expected = length request }

-- A request of fewer than 2^64 bytes that `parse` accepts is self-delimited: `inspect` reports
-- exactly the request's own bytes, those alone are parsed as the same message, and any other bytes
-- behind them change neither the framing nor the message.
pub parse-IsSelfDelimited :
    (raw : Bytes) {m : Message} → length raw ≤ npos → parse raw ≡ some m → IsSelfDelimited raw m
parse-IsSelfDelimited raw {m} small h =
    let p = parse-Parsed raw h in
    let b = p.bounds in
    let scan = scan_head b.head in
    let e = head_bounds-IsBounded raw p.found in
    let d = parse_body-IsDelimited scan b.tail (scan_head-IsConsistent b.head) p.body_parsed in
    let size = length-append e.prefix d.taken in
    let whole = ap length e.splits ∙ length-append e.prefix b.tail in
    let body = ap length d.splits ∙ length-append d.taken d.rest in
    record {
      request = e.prefix ++ d.taken;
      rest = d.rest;
      splits =
          e.splits ∙ ap (λ x. e.prefix ++ x) d.splits ∙ sym (append_assoc e.prefix d.taken d.rest);
      parsed = λ t. rw (append_assoc e.prefix d.taken t) (
          unfold parse in
          rw (e.again (d.taken ++ t), parse) (parse_head_lem p (d.taken ++ t) (d.parsed t)));
      inspected = λ t. rw (append_assoc e.prefix d.taken t) (
          unfold inspect in
          rw (e.again (d.taken ++ t), inspect)
            (inspect_head-inspect_body (e.prefix ++ (d.taken ++ t))
                (record b { tail = d.taken ++ t }) scan p.not_many p.not_bad p.not_encoded p.endings
              ∙ inspect_body_lem (e.prefix ++ (d.taken ++ t)) b scan d t
                  (omega (arith, e.prefix_size))
                  (omega (
                    arith,
                    e.prefix_size,
                    length-append {0} e.prefix (d.taken ++ t),
                    length-append {0} d.taken t,
                  ))
              ∙ ap (λ n. record { framing = Framing.complete; expected = n })
                  (omega (arith, e.prefix_size))));
    }
