-- ===== src/Http/Head/Scan.antt =====
-- What `scan_head` of include/vermell/http/message.hpp finds.
use vermell.Http.Head.{
  first_line, max_header_line, max_headers, strip_cr, HeadScan, new_scan, ScanStep, stop, next,
  scan_length, scan_encoding, scan_field, scan_content, scan_line, scan_lines, scan_head,
}
use vermell.Http.Text.{trim}
use vermell.Prelude.Decimal.{parse_decimal, parse_decimal_bound}
use vermell.Prelude.{
  ℕ, suc, ◌+◌, ◌^◌, ◌≤◌, ◌<◌, max, ◌≡◌, refl, ◌⊎◌, inl, inr, true, false, ◌&&◌, ◌||◌, List, [], ◌∷◌,
  arith, ltb, if◌then◌else◌, Bool-cases, Option-cases, Bytes, is_empty, cut, lines_of, length,
}

-- A head never has both framings, and a length only if it declares one.
pub record IsConsistent (scan : HeadScan) : Type 0 where
  pub exclusive : (scan.has_content_length && (scan.chunked || scan.transfer_encoding)) ≡ false
  pub declared : scan.has_content_length ≡ false → scan.content_length ≡ 0
  pub bounded : scan.content_length < 2 ^ 64

abbrev StepIsConsistent : ScanStep → Type 0
StepIsConsistent (stop scan) = IsConsistent scan
StepIsConsistent (next count scan) = IsConsistent scan

module _ (count : ℕ) {scan : HeadScan} (c : IsConsistent scan) where
  scan_length-IsConsistent : (value : Bytes) → StepIsConsistent (scan_length count scan value)
  unfolding scan_length
  scan_length-IsConsistent value = elim (Option-cases (parse_decimal (2 ^ 64) value)) [
    | inl bad ↦ ground (arith, c.declared)
    | inr (n, e) ↦ ground (arith, c.declared, parse_decimal_bound (2 ^ 64) value e)
  ]

  scan_encoding-IsConsistent : (value : Bytes) → StepIsConsistent (scan_encoding count scan value)
  unfolding scan_encoding
  scan_encoding-IsConsistent value = ground (arith, c.declared)

  scan_field-IsConsistent :
      (name value : Bytes) → StepIsConsistent (scan_field count scan name value)
  unfolding scan_field
  scan_field-IsConsistent name value =
      ground (arith, scan_length-IsConsistent value, scan_encoding-IsConsistent value)

  scan_content-IsConsistent : (line : Bytes) → StepIsConsistent (scan_content count scan line)
  unfolding scan_content
  scan_content-IsConsistent line = elim (Option-cases (cut b':' line)) [
    | inl missing ↦ rw (missing, scan_content) c
    | inr (([], after), e) ↦ rw (e, scan_content) c
    | inr ((x ∷ before, after), e) ↦
        rw (e, scan_content) (scan_field-IsConsistent (trim (x ∷ before)) (trim after))
  ]

scan_line-IsConsistent :
    (count : ℕ) {scan : HeadScan}
    → IsConsistent scan
    → (line : Bytes) → StepIsConsistent (scan_line count scan line)
unfolding scan_line
scan_line-IsConsistent count {scan} c line =
    ground (arith, c.declared, scan_content-IsConsistent (count + 1) c (strip_cr line))

ScanStep-cases :
    (s : ScanStep) → ((r : HeadScan) × (s ≡ stop r)) ⊎ ((n : ℕ) × (r : HeadScan) × (s ≡ next n r))
ScanStep-cases (stop r) = inl (r, refl)
ScanStep-cases (next n r) = inr (n, r, refl)

scan_lines-IsConsistent :
    (count : ℕ) {scan : HeadScan}
    → IsConsistent scan
    → (lines : List Bytes) → IsConsistent (scan_lines count scan lines)
unfolding scan_lines
scan_lines-IsConsistent count c [] = c
scan_lines-IsConsistent count {scan} c (line ∷ lines) =
    let d = scan_line-IsConsistent count c line in
    elim (ScanStep-cases (scan_line count scan line)) [
      | inl (r, e) ↦ rw (e, scan_lines) (rw e at d)
      | inr (n, r, e) ↦ rw (e, scan_lines) (scan_lines-IsConsistent n (rw e at d) lines)
    ]

-- No head is read as having both a declared length and a chunked body, and the length fits a
-- 64-bit `size_t`.
pub scan_head-IsConsistent : (head : Bytes) → IsConsistent (scan_head head)
unfolding scan_head
scan_head-IsConsistent head =
    let start : IsConsistent new_scan = record {
      exclusive = refl;
      declared = λ h. refl;
      bounded = omega arith;
    } in
    elim (Option-cases (cut b'\n' head)) [
      | inl missing ↦ rw (missing, scan_head) start
      | inr ((line, fields), e) ↦ elim (Bool-cases (ltb max_header_line (length line))) [
        | inl long ↦
            rw (e, scan_head)
              (rw long (record { exclusive = refl; declared = λ h. refl; bounded = omega arith }))
        | inr fits ↦
            rw (e, scan_head) (rw fits (scan_lines-IsConsistent 0 start (lines_of b'\n' fields)))
      ]
    ]

-- A header line that is looked at ends the scan as bad, or leaves the count.
abbrev Keeps : ℕ → ScanStep → Type 0
Keeps count (stop r) = r.bad ≡ true
Keeps count (next n r) = n ≡ count

scan_field-Keeps :
    (count : ℕ) (scan : HeadScan) (name value : Bytes)
    → Keeps count (scan_field count scan name value)
unfolding scan_field scan_length scan_encoding
scan_field-Keeps count scan name value = elim (Option-cases (parse_decimal (2 ^ 64) value)) [
  | inl bad ↦ ground arith
  | inr (n, e) ↦ ground arith
]

scan_content-Keeps :
    (count : ℕ) (scan : HeadScan) (line : Bytes) → Keeps count (scan_content count scan line)
unfolding scan_content
scan_content-Keeps count scan line = elim (Option-cases (cut b':' line)) [
  | inl missing ↦ rw (missing, scan_content) refl
  | inr (([], after), e) ↦ rw (e, scan_content) refl
  | inr ((x ∷ before, after), e) ↦
      rw (e, scan_content) (scan_field-Keeps count scan (trim (x ∷ before)) (trim after))
]

-- How a round ends: it gives up, or it counts the line unless that is empty.
abbrev Counts : ℕ → Bytes → ScanStep → Type 0
Counts count line (stop r) = (r.bad ≡ true) ⊎ (r.too_many ≡ true)
Counts count line (next n r) =
    (n ≡ (if is_empty (strip_cr line) then count else count + 1)) × (n ≤ max count max_headers)

scan_line-Counts :
    (count : ℕ) (scan : HeadScan) (line : Bytes) → Counts count line (scan_line count scan line)
unfolding scan_line
scan_line-Counts count scan line =
    on_content (scan_content (count + 1) scan (strip_cr line))
      (scan_content-Keeps (count + 1) scan (strip_cr line)) refl
  where
    on_content :
        (s : ScanStep)
        → Keeps (count + 1) s
        → scan_content (count + 1) scan (strip_cr line) ≡ s
        → Counts count line (scan_line count scan line)
    on_content (stop r) k e = ground arith
    on_content (next n r) k e = ground arith

-- The lines that hold a header field.
unfoldable pub field_count : List Bytes → ℕ
field_count [] = 0
field_count (line ∷ lines) =
    if is_empty (strip_cr line) then field_count lines else suc (field_count lines)

scan_lines-field_count :
    (count : ℕ) (scan : HeadScan) (lines : List Bytes)
    → (scan_lines count scan lines).bad ≡ false
    → (scan_lines count scan lines).too_many ≡ false
    → count ≤ max_headers
    → count + field_count lines ≤ max_headers
unfolding field_count
scan_lines-field_count count scan [] b m h = omega arith
scan_lines-field_count count scan (line ∷ lines) b m h =
    let c = scan_line-Counts count scan line in
    elim (ScanStep-cases (scan_line count scan line)) [
      | inl (r, e) ↦
          let ended : scan_lines count scan (line ∷ lines) ≡ r =
            unfold scan_lines in rw (e, scan_lines) refl in
          let d : Counts count line (stop r) = rw e at c in ground arith
      | inr (n, r, e) ↦
          let on : scan_lines count scan (line ∷ lines) ≡ scan_lines n r lines =
            unfold scan_lines in rw (e, scan_lines) refl in
          let d : Counts count line (next n r) = rw e at c in
          ground (arith, scan_lines-field_count n r lines (rw on at b) (rw on at m))
    ]

-- A head that is not refused has at most a hundred header fields.
pub scan_head-field_count :
    (head : Bytes)
    → (scan_head head).bad ≡ false
    → (scan_head head).too_many ≡ false
    → field_count (lines_of b'\n' (first_line head).1) ≤ max_headers
unfolding scan_head first_line
scan_head-field_count head b m = elim (Option-cases (cut b'\n' head)) [
  | inl missing ↦ rw (missing, first_line) (unfold field_count lines_of in omega arith)
  | inr ((line, fields), e) ↦
      rw (e, first_line)
        (omega (
          arith,
          scan_lines-field_count 0 new_scan (lines_of b'\n' fields) (ground (arith, e))
              (ground (arith, e)) (omega arith),
        ))
]
