-- ===== src/Http/Message/Agreement.antt =====
-- `inspect` and `parse` of include/vermell/http/message.hpp agree on which bytes are a request.
use vermell.Http.Head.{line_endings_ok, Bounds, HeadScan, scan_head}
use vermell.Http.Chunked.{ChunkState, npos, scan_chunked}
use vermell.Http.Chunked.Grammar.{scan_chunked_sound}
use vermell.Http.Head.Scan.{IsConsistent, scan_head-IsConsistent}
use vermell.Http.Head.Terminator.{head_bounds-length}
use vermell.Http.Message.{
  Framing, Inspection, inspect_body, inspect_head, inspect, Message, parse_body, parse,
}
use vermell.Http.Message.Parsed.{parse-Parsed}
use vermell.Prelude.{
  ℕ, ◌+◌, ◌≤◌, ◌≡◌, sym, ap, subst, inl, inr, true, false, some, arith, Bool-cases, Bytes, length,
  length-append,
}

-- The inspection says that the request is complete, and that its bytes are all there.
pub record IsFramed (raw : Bytes) (i : Inspection) : Type 0 where
  pub is_complete : i.framing ≡ Framing.complete
  pub available : i.expected ≤ length raw

consumed-le :
    (body : Bytes)
    → (scan_chunked body).state ≡ ChunkState.complete
    → (scan_chunked body).consumed ≤ length body
consumed-le body h =
    let r = scan_chunked body in
    let (w, rest, split, size, t) =
      scan_chunked_sound body r.content r.consumed
        (λ i. record { state = h i; content = r.content; consumed = r.consumed }) in
    omega (arith, ap length split, length-append {0} w rest)

-- A body that `parse` takes is complete for `inspect`.
pub inspect_body-IsFramed :
    (raw : Bytes) (b : Bounds) (scan : HeadScan) {content : Bytes × ℕ}
    → length raw ≤ npos
    → length raw ≡ length b.head + b.separator + length b.tail
    → IsConsistent scan
    → parse_body scan b.tail ≡ some content
    → IsFramed raw (inspect_body raw b scan)
unfolding inspect_body parse_body
inspect_body-IsFramed raw b scan small size c h = elim (Bool-cases scan.chunked) [
  | inl chunked ↦ ground (arith, c.exclusive, consumed-le b.tail)
  | inr plain ↦ ground (arith, c.declared)
]

pub inspect_head-inspect_body :
    (raw : Bytes) (b : Bounds) (scan : HeadScan)
    → scan.too_many ≡ false
    → scan.bad ≡ false
    → scan.transfer_encoding ≡ false
    → line_endings_ok b.head b.separator ≡ true
    → inspect_head raw b scan ≡ inspect_body raw b scan
unfolding inspect_head
inspect_head-inspect_body raw b scan p q r s = ground arith

-- What `parse` accepts, `inspect` reports as complete, and within the bytes received, for a request
-- of fewer than 2^64 bytes.
pub parse-IsFramed :
    (raw : Bytes) {m : Message}
    → length raw ≤ npos
    → parse raw ≡ some m
    → IsFramed raw (inspect raw)
unfolding inspect
parse-IsFramed raw {m} small h =
    let p = parse-Parsed raw h in
    let framed =
      inspect_body-IsFramed raw p.bounds (scan_head p.bounds.head) small
        (head_bounds-length raw p.found) (scan_head-IsConsistent p.bounds.head) p.body_parsed in
    rw (p.found, inspect)
      (subst (IsFramed raw)
        (sym (
          inspect_head-inspect_body raw p.bounds (scan_head p.bounds.head) p.not_many p.not_bad
            p.not_encoded p.endings))
        framed)
