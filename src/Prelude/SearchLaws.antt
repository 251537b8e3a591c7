-- ===== src/Prelude/SearchLaws.antt =====
-- Laws of `cut_seq`, the search for a pattern that is not empty.
use vermell.Prelude.ViewLaws.{strip_prefix-append, strip_prefix-eq_some}
use vermell.Prelude.Views.{Bytes, strip_prefix, cut_seq, push_front}
use vermell.Prelude.Lists.{length, length-append}
use vermell.Prelude.Tests.{Option-cases}
use Prim.Native.Nat.{ℕ, ◌+◌, ◌≤◌}
use mathlib.Core.Path.{◌≡◌, ap, ◌∙◌}
use mathlib.Core.Logic.{◌⊎◌, inl, inr}
use mathlib.Core.List.{[], ◌∷◌, ◌++◌, append_assoc}
use mathlib.Core.Option.{none, some}
use native.Mathlib.Omega.{arith}

-- A match of a pattern depends on no more bytes than the pattern has.
pub strip_prefix-none_local :
    (pat w s t : Bytes)
    → length pat ≤ length w
    → strip_prefix pat (w ++ s) ≡ none
    → strip_prefix pat (w ++ t) ≡ none
unfolding strip_prefix
strip_prefix-none_local [] w s t le h = cc
strip_prefix-none_local (p ∷ pat) [] s t le h = absurd (omega arith)
strip_prefix-none_local (p ∷ pat) (c ∷ w) s t le h =
    ground (arith, strip_prefix-none_local pat w s t)

-- The pattern stands at the front, or the search goes on behind the first byte.
cut_seq-cases :
    (pat : Bytes) (x : ℕ) (s : Bytes) {before after : Bytes}
    → cut_seq pat (x ∷ s) ≡ some (before, after)
    → ((strip_prefix pat (x ∷ s) ≡ some after) × (before ≡ []))
      ⊎ ((b : Bytes) × (before ≡ x ∷ b)
          × (strip_prefix pat (x ∷ s) ≡ none)
          × (cut_seq pat s ≡ some (b, after)))
unfolding cut_seq
cut_seq-cases pat x s {before} {after} h = elim (Option-cases (strip_prefix pat (x ∷ s))) [
  | inr (found, e) ↦ inl (ground arith, ground arith)
  | inl no_match ↦ elim (Option-cases (cut_seq pat s)) [
    | inl missing ↦ ground arith
    | inr ((b, a), e) ↦ inr (b, ground arith, no_match, ground arith)
  ]
]

cut_seq_here : (p : ℕ) (ps t : Bytes) → cut_seq (p ∷ ps) ((p ∷ ps) ++ t) ≡ some ([], t)
unfolding cut_seq
cut_seq_here p ps t = ground (arith, strip_prefix-append (p ∷ ps) t)

cut_seq_there :
    (pat : Bytes) (x : ℕ) (b s t : Bytes)
    → strip_prefix pat (x ∷ (b ++ (pat ++ s))) ≡ none
    → cut_seq pat (x ∷ (b ++ (pat ++ t))) ≡ push_front x (cut_seq pat (b ++ (pat ++ t)))
unfolding cut_seq
cut_seq_there pat x b s t h =
    let here : strip_prefix pat ((x ∷ (b ++ pat)) ++ s) ≡ none = rw (append_assoc b pat s) h in
    let there =
      strip_prefix-none_local pat (x ∷ (b ++ pat)) s t (omega (arith, length-append {0} b pat))
        here in
    rw (← append_assoc b pat t) (ground (arith, there))

-- `cut_seq` finds the pattern, and the same cut whatever stands behind it.
pub cut_seq-eq_some :
    (p : ℕ) (ps s : Bytes) {before after : Bytes}
    → cut_seq (p ∷ ps) s ≡ some (before, after)
    → (s ≡ before ++ ((p ∷ ps) ++ after))
      × ((t : Bytes) → cut_seq (p ∷ ps) (before ++ ((p ∷ ps) ++ t)) ≡ some (before, t))
cut_seq-eq_some p ps [] h = unfold cut_seq in cc
cut_seq-eq_some p ps (x ∷ s) {before} {after} h = elim (cut_seq-cases (p ∷ ps) x s h) [
  | inl (found, nil) ↦
      rw nil (strip_prefix-eq_some (p ∷ ps) (x ∷ s) found, λ t. cut_seq_here p ps t)
  | inr (b, front, no_match, later) ↦
      let (split, again) = cut_seq-eq_some p ps s later in
      rw front (
        ap (◌∷◌ x) split,
        λ t.
            cut_seq_there (p ∷ ps) x b after t (rw split at no_match) ∙ ap (push_front x) (again t),
      )
]

-- The parts of a cut make up the view.
pub length-cut_seq :
    (p : ℕ) (ps s : Bytes) {before after : Bytes}
    → cut_seq (p ∷ ps) s ≡ some (before, after)
    → length s ≡ length before + (length (p ∷ ps) + length after)
length-cut_seq p ps s {before} {after} h =
    ap length (cut_seq-eq_some p ps s h).0
    ∙ length-append before ((p ∷ ps) ++ after)
    ∙ ap (λ n. length before + n) (length-append (p ∷ ps) after)
