-- ===== src/Http/Chunked/Grammar.antt =====
-- The chunked coding as a grammar (RFC 9112 §7.1), and that `scan_chunked` of
-- include/vermell/http/message.hpp decides it.
use vermell.Prelude.{
  drop-append_of_length, take-append_of_length, ℕ, zero, suc, ◌-◌, ◌<◌, ◌≡◌, refl, sym, ap, ◌∙◌,
  subst, ◌≢◌, ◌↔◌, inl, inr, false, none, some, [], ◌∷◌, ◌++◌, append-nil, append_assoc, arith, ltb,
  Bool-cases, Option-cases, Bytes, strip_prefix, cut_seq, length, take, drop, length-append,
  length-take_le, take-append-drop, cut_seq-eq_some,
}
use vermell.Http.Chunked.{
  complete, ChunkScanResult, crlf, skip_trailers, chunk_end, chunk_size, stop_scan, scan_chunks,
  scan_chunked, result_of,
}
use vermell.Http.Chunked.Fuel.{chunk_end-eq_some}
use vermell.Http.Chunked.Size.{IsSize, chunk_size_iff}

-- The line's own CRLF is the first, whatever follows it.
abbrev pub IsLine : Bytes → Type 0
IsLine line = (t : Bytes) → cut_seq crlf (line ++ (crlf ++ t)) ≡ some (line, t)

pub data IsTrailers : Bytes → Type 0 where
  end : {w : Bytes} → w ≡ crlf → IsTrailers w
  field :
      {w line more : Bytes}
      → w ≡ line ++ (crlf ++ more)
      → line ≢ []
      → IsLine line
      → IsTrailers more
      → IsTrailers w

-- `IsCoding w content`: the bytes `w` are chunks of the content, the last chunk and the trailers. The
-- line before each has its size.
pub data IsCoding : Bytes → Bytes → Type 0 where
  last :
      {w content line trailers : Bytes}
      → w ≡ line ++ (crlf ++ trailers)
      → content ≡ []
      → IsLine line
      → IsSize line 0
      → IsTrailers trailers
      → IsCoding w content
  chunk :
      {w content line more content' : Bytes} {n : ℕ} (chunk_content : Bytes)
      → w ≡ line ++ (crlf ++ (chunk_content ++ (crlf ++ more)))
      → content ≡ chunk_content ++ content'
      → IsLine line
      → IsSize line (suc n)
      → length chunk_content ≡ suc n
      → IsCoding more content'
      → IsCoding w content

IsLine-of_cut : (s : Bytes) {line t : Bytes} → cut_seq crlf s ≡ some (line, t) → IsLine line
IsLine-of_cut s h = (cut_seq-eq_some b'\r' (b'\n' ∷ []) s h).1

skip_trailers_complete :
    (f : ℕ) (content rest : Bytes) {w : Bytes}
    → IsTrailers w
    → length w < f
    → skip_trailers f content (w ++ rest) ≡ stop_scan complete content rest
unfolding skip_trailers
skip_trailers_complete zero content rest t h = absurd (omega arith)
skip_trailers_complete (suc f) content rest (end e) h = rw e (unfold cut_seq strip_prefix in refl)
skip_trailers_complete (suc f) content rest (field {w} {line = []} {more} e ne l t) h =
    absurd (ne refl)
skip_trailers_complete (suc f) content rest (field {w} {line = c ∷ line} {more} e ne l t) h =
    let split : w ++ rest ≡ (c ∷ line) ++ (crlf ++ (more ++ rest)) = rw e (simp append_assoc) in
    let size : length more < f =
      omega (arith, ap length e, length-append {0} line (crlf ++ more)) in
    rw split (ground (arith, l (more ++ rest), skip_trailers_complete f content rest t size))

skip_trailers_sound :
    (f : ℕ) (content body : Bytes)
    → (skip_trailers f content body).state ≡ complete
    → (w : Bytes) × IsTrailers w
      × (body ≡ w ++ (skip_trailers f content body).rest)
      × ((skip_trailers f content body).content ≡ content)
unfolding skip_trailers
skip_trailers_sound zero content body h = cc
skip_trailers_sound (suc f) content body h = elim (Option-cases (cut_seq crlf body)) [
  | inl missing ↦ ground arith
  | inr (([], after), found) ↦ (
    crlf,
    end refl,
    ground (arith, (cut_seq-eq_some b'\r' (b'\n' ∷ []) body found).0),
    ground (arith, found),
  )
  | inr ((c ∷ line, after), found) ↦
      let split = (cut_seq-eq_some b'\r' (b'\n' ∷ []) body found).0 in
      let (w, t, e, same_content) = skip_trailers_sound f content after (ground (arith, found)) in
      (
        (c ∷ line) ++ (crlf ++ w),
        field refl (λ q. cc) (IsLine-of_cut body found) t,
        ground (
          arith,
          found,
          split,
          e,
          append_assoc line (crlf ++ w) (skip_trailers f content after).rest,
          append_assoc crlf w (skip_trailers f content after).rest,
        ),
        ground (arith, found),
      )
]

take-drop_ends :
    (n : ℕ) (after : Bytes) {rest : Bytes}
    → ltb (length after) n ≡ false
    → chunk_end (drop n after) ≡ some (some rest)
    → (after ≡ take n after ++ (crlf ++ rest)) × (length (take n after) ≡ n)
take-drop_ends n after {rest} h e = (
  sym (take-append-drop n after) ∙ ap (λ x. take n after ++ x) (chunk_end-eq_some (drop n after) e),
  length-take_le n after (ground arith),
)

-- A round that reads a whole chunk.
scan_chunks_step :
    (f : ℕ) (content body : Bytes) {line after rest : Bytes} {n : ℕ}
    → cut_seq crlf body ≡ some (line, after)
    → chunk_size line ≡ some (suc n)
    → ltb (length after) (suc n) ≡ false
    → chunk_end (drop (suc n) after) ≡ some (some rest)
    → scan_chunks (suc f) content body ≡ scan_chunks f (content ++ take (suc n) after) rest
unfolding scan_chunks
scan_chunks_step f content body found size enough ended = ground (arith, found, size, enough, ended)

-- Whatever `scan_chunks` accepts is in the grammar.
pub scan_chunks_sound :
    (f : ℕ) (content body : Bytes)
    → (scan_chunks f content body).state ≡ complete
    → (w : Bytes) × (c : Bytes) × IsCoding w c
      × (body ≡ w ++ (scan_chunks f content body).rest)
      × ((scan_chunks f content body).content ≡ content ++ c)
unfolding scan_chunks
scan_chunks_sound zero content body h = cc
scan_chunks_sound (suc f) content body h = elim (Option-cases (cut_seq crlf body)) [
  | inl missing ↦ ground arith
  | inr ((line, after), found) ↦ elim (Option-cases (chunk_size line)) [
    | inl bad ↦ ground (arith, found)
    | inr (zero, size) ↦
        let split = (cut_seq-eq_some b'\r' (b'\n' ∷ []) body found).0 in
        let (w, t, e, same_content) =
          skip_trailers_sound (suc (length after)) content after (ground (arith, found, size)) in
        (
          line ++ (crlf ++ w),
          [],
          last refl refl (IsLine-of_cut body found) ((chunk_size_iff line 0).0 size) t,
          ground (
            arith,
            found,
            size,
            split,
            e,
            append_assoc line (crlf ++ w) (skip_trailers (suc (length after)) content after).rest,
          ),
          ground (arith, found, size, same_content, append-nil content),
        )
    | inr (suc n, size) ↦ elim (Bool-cases (ltb (length after) (suc n))) [
      | inl short ↦ ground (arith, found, size)
      | inr enough ↦ elim (Option-cases (chunk_end (drop (suc n) after))) [
        | inl missing ↦ ground (arith, found, size)
        | inr (none, ended) ↦ ground (arith, found, size)
        | inr (some rest, ended) ↦
            let split = (cut_seq-eq_some b'\r' (b'\n' ∷ []) body found).0 in
            let (e, len) = take-drop_ends (suc n) after enough ended in
            let d = take (suc n) after in
            let (w, c, t, e', same_content) =
              scan_chunks_sound f (content ++ d) rest
                (ground (arith, found, size, enough, ended)) in
            let step = scan_chunks_step f content body found size enough ended in
            rw step (
              line ++ (crlf ++ (d ++ (crlf ++ w))),
              d ++ c,
              chunk d refl refl (IsLine-of_cut body found) ((chunk_size_iff line (suc n)).0 size)
                  len t,
              split
                  ∙ ap (λ x. line ++ (crlf ++ x)) (e ∙ ap (λ x. d ++ (crlf ++ x)) e')
                  ∙ simp append_assoc,
              same_content ∙ append_assoc content d c,
            )
      ]
    ]
  ]
]

scan_chunks_complete :
    (f : ℕ) (content rest : Bytes) {w c : Bytes}
    → IsCoding w c
    → length w < f
    → scan_chunks f content (w ++ rest) ≡ stop_scan complete (content ++ c) rest
unfolding scan_chunks
scan_chunks_complete zero content rest t h = absurd (omega arith)
scan_chunks_complete (suc f) content rest (last {w} {content = c} {line} {trailers} e ce l size t)
      h =
    let split : w ++ rest ≡ line ++ (crlf ++ (trailers ++ rest)) = rw e (simp append_assoc) in
    rw split (
      ground (
        arith,
        l (trailers ++ rest),
        (chunk_size_iff line 0).1 size,
        ce,
        append-nil content,
        skip_trailers_complete (suc (length (trailers ++ rest))) content rest t
            (omega (arith, length-append {0} trailers rest)),
      ))
scan_chunks_complete (suc f) content rest
      (chunk {w} {content = c} {line} {more} {content'} {n} d e ce l size len t) h =
    let split : w ++ rest ≡ line ++ (crlf ++ (d ++ (crlf ++ (more ++ rest)))) =
      rw e (simp append_assoc) in
    let after = d ++ (crlf ++ (more ++ rest)) in
    let took = take-append_of_length (suc n) d (crlf ++ (more ++ rest)) len in
    let dropped = drop-append_of_length (suc n) d (crlf ++ (more ++ rest)) len in
    let room : ltb (length after) (suc n) ≡ false =
      ground (arith, length-append {0} d (crlf ++ (more ++ rest))) in
    let ends : chunk_end (drop (suc n) after) ≡ some (some (more ++ rest)) = rw dropped refl in
    let size_left : length more < f = omega (
      arith,
      ap length e,
      length-append {0} line (crlf ++ (d ++ (crlf ++ more))),
      length-append {0} d (crlf ++ more),
    ) in
    rw split (
      scan_chunks_step f content (line ++ (crlf ++ after)) (l after)
        ((chunk_size_iff line (suc n)).1 size) room ends
      ∙ rw took (scan_chunks_complete f (content ++ d) rest t size_left)
      ∙ ap (λ x. stop_scan complete x rest)
          (append_assoc content d content' ∙ ap (λ x. content ++ x) (sym ce)))

abbrev pub Completes : Bytes → Bytes → ℕ → Type 0
Completes body content n =
    scan_chunked body ≡ record { state = complete; content = content; consumed = n }

pub scan_chunked_complete :
    (rest : Bytes) {w content : Bytes}
    → IsCoding w content
    → Completes (w ++ rest) content (length w)
unfolding scan_chunked
scan_chunked_complete rest {w} {content} t =
    let size = length-append w rest in
    ap (result_of (w ++ rest))
      (scan_chunks_complete (suc (length (w ++ rest))) [] rest t (omega arith))
    ∙ ap (λ n. record { state = complete; content = content; consumed = n }) (omega arith)

pub scan_chunked_sound :
    (body content : Bytes) (n : ℕ)
    → Completes body content n
    → (w : Bytes) × (rest : Bytes) × (body ≡ w ++ rest) × (length w ≡ n) × IsCoding w content
unfolding scan_chunked
scan_chunked_sound body content n h =
    let scan = scan_chunks (suc (length body)) [] body in
    let done : scan.state ≡ complete = ap (λ r. r.state) h in
    let (w, c, t, split, same_content) = scan_chunks_sound (suc (length body)) [] body done in
    let consumed : length body - length scan.rest ≡ n =
      rw done at (ap (λ (r : ChunkScanResult). r.consumed) h) in
    let size = length-append w scan.rest in
    let total = ap length split in
    (
      w,
      scan.rest,
      split,
      omega arith,
      subst (IsCoding w) (sym same_content ∙ ap (λ (r : ChunkScanResult). r.content) h) t,
    )

-- `scan_chunked` is complete exactly on the bodies that begin with a chunked coding, its sizes below
-- 2^64 in hexadecimal digits with or without an extension behind a semicolon: it returns the content
-- of the chunks, and consumes the coding and nothing behind it.
pub scan_chunked_iff :
    (body content : Bytes) (n : ℕ)
    → Completes body content n
      ↔ ((w : Bytes) × (rest : Bytes) × (body ≡ w ++ rest) × (length w ≡ n) × IsCoding w content)
scan_chunked_iff body content n = (
  scan_chunked_sound body content n,
  λ (w, rest, split, size, t). rw (split, ← size) (scan_chunked_complete rest t),
)
