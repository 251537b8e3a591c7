-- ===== src/Http/Multipart/Fuel.antt =====
-- `parse_multipart` of include/vermell/http/message.hpp: each round of its loop consumes a delimiter.
use vermell.Http.Multipart.{skip_end, add_part, parse_parts, delimiter_of}
use vermell.Prelude.{
  ℕ, zero, suc, ◌≤◌, ◌<◌, ◌≡◌, refl, ap, inl, inr, [], ◌∷◌, arith, Option-cases, Bytes, codes,
  strip_prefix, cut_seq, length, length-cut_seq,
}

length-skip_end : (s : Bytes) → length (skip_end s) ≤ length s
unfolding skip_end
length-skip_end [] = ground arith
length-skip_end (c ∷ []) = ground arith
length-skip_end (c ∷ d ∷ s) = ground arith

-- Any two amounts of fuel beyond the bytes left give the same form.
pub parse_parts_fuel :
    (f g : ℕ) (boundary body : Bytes)
    → length body < f
    → length body < g
    → parse_parts f (delimiter_of boundary) body ≡ parse_parts g (delimiter_of boundary) body
unfolding parse_parts strip_prefix
parse_parts_fuel zero g boundary body p q = absurd (omega arith)
parse_parts_fuel (suc f) zero boundary body p q = absurd (omega arith)
parse_parts_fuel (suc f) (suc g) boundary body p q =
    elim (Option-cases (strip_prefix (codes "--") body)) [
      | inr (rest, closing) ↦ rw closing refl
      | inl going ↦ elim (Option-cases (cut_seq (delimiter_of boundary) (skip_end body))) [
        | inl missing ↦ rw (going, missing) refl
        | inr ((part, rest), found) ↦
            let shorter = length-cut_seq b'-' (b'-' ∷ boundary) (skip_end body) found in
            let le = length-skip_end body in
            rw (going, found)
              (ap (add_part part) (parse_parts_fuel f g boundary rest (omega arith) (omega arith)))
      ]
    ]
