-- ===== src/Http/Chunked/Fuel.antt =====
-- `scan_chunked` of include/vermell/http/message.hpp: what one round of its loops does, and that
-- the fuel does not matter once it exceeds the bytes left.
use vermell.Http.Chunked.{crlf, skip_trailers, chunk_end, chunk_size, scan_chunks}
use vermell.Prelude.{
  ℕ, zero, suc, ◌<◌, ◌≡◌, ap, inl, inr, none, some, [], ◌∷◌, ◌++◌, arith, ltb, Bool-cases,
  Option-cases, Bytes, cut_seq, length, take, drop, length-drop, length-cut_seq,
}

skip_trailers_fuel :
    (f g : ℕ) (content body : Bytes)
    → length body < f
    → length body < g
    → skip_trailers f content body ≡ skip_trailers g content body
unfolding skip_trailers
skip_trailers_fuel zero g content body p q = absurd (omega arith)
skip_trailers_fuel (suc f) zero content body p q = absurd (omega arith)
skip_trailers_fuel (suc f) (suc g) content body p q = elim (Option-cases (cut_seq crlf body)) [
  | inl missing ↦ ground (arith, missing)
  | inr (([], after), found) ↦ ground (arith, found)
  | inr ((c ∷ before, after), found) ↦ ground (
    arith,
    found,
    length-cut_seq b'\r' (b'\n' ∷ []) body found,
    skip_trailers_fuel f g content after,
  )
]

pub chunk_end-eq_some :
    (s : Bytes) {rest : Bytes} → chunk_end s ≡ some (some rest) → s ≡ b'\r' ∷ b'\n' ∷ rest
chunk_end-eq_some [] h = cc
chunk_end-eq_some (c ∷ []) h = cc
chunk_end-eq_some (c ∷ d ∷ s) h = ground arith

-- A scan that ends by itself gives the same result with any fuel beyond the bytes left.
pub scan_chunks_fuel :
    (f g : ℕ) (content body : Bytes)
    → length body < f
    → length body < g
    → scan_chunks f content body ≡ scan_chunks g content body
unfolding scan_chunks
scan_chunks_fuel zero g content body p q = absurd (omega arith)
scan_chunks_fuel (suc f) zero content body p q = absurd (omega arith)
scan_chunks_fuel (suc f) (suc g) content body p q = elim (Option-cases (cut_seq crlf body)) [
  | inl missing ↦ ground (arith, missing)
  | inr ((line, after), found) ↦ elim (Option-cases (chunk_size line)) [
    | inl bad ↦ ground (arith, found, bad)
    | inr (zero, size) ↦ ground (arith, found, size)
    | inr (suc n, size) ↦ elim (Bool-cases (ltb (length after) (suc n))) [
      | inl short ↦ ground (arith, found, size, short)
      | inr enough ↦ elim (Option-cases (chunk_end (drop (suc n) after))) [
        | inl missing ↦ ground (arith, found, size, enough, missing)
        | inr (none, ended) ↦ ground (arith, found, size, enough, ended)
        | inr (some rest, ended) ↦ ground (
          arith,
          found,
          size,
          enough,
          ended,
          length-cut_seq b'\r' (b'\n' ∷ []) body found,
          ap length (chunk_end-eq_some (drop (suc n) after) ended),
          length-drop (suc n) after,
          scan_chunks_fuel f g (content ++ take (suc n) after) rest,
        )
      ]
    ]
  ]
]
