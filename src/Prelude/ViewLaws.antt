-- ===== src/Prelude/ViewLaws.antt =====
-- Laws of the searches on byte strings.
use Prim.Native.Nat.{ℕ}
use vermell.Prelude.Views.{cons_head, join_with, split_on, Bytes, same, strip_prefix, cut}
use mathlib.Core.List.{List, [], ◌∷◌, ◌++◌}
use mathlib.Core.Path.{◌≡◌, refl, ap, ◌∙◌}
use mathlib.Core.Logic.{◌≢◌, ◌↔◌, inl, inr}
use mathlib.Core.Bool.{true}
use mathlib.Core.Option.{none, some}
use native.Mathlib.Omega.{arith}
use vermell.Prelude.Tests.{◌==◌, Bool-cases, Option-cases}
use vermell.Prelude.Lists.{All}

pub same_iff : (a b : Bytes) → (same a b ≡ true) ↔ (a ≡ b)
unfolding same
same_iff [] [] = ground arith
same_iff [] (y ∷ b) = ground arith
same_iff (x ∷ a) [] = ground arith
same_iff (x ∷ a) (y ∷ b) = ground (arith, same_iff a b)

pub same_refl : (a : Bytes) → same a a ≡ true
same_refl a = (same_iff a a).1 refl

pub strip_prefix-append : (p s : Bytes) → strip_prefix p (p ++ s) ≡ some s
unfolding strip_prefix
strip_prefix-append [] s = refl
strip_prefix-append (c ∷ p) s = ground (arith, strip_prefix-append p s)

pub strip_prefix-eq_some :
    (p s : Bytes) {after : Bytes} → strip_prefix p s ≡ some after → s ≡ p ++ after
unfolding strip_prefix
strip_prefix-eq_some [] s h = ground arith
strip_prefix-eq_some (c ∷ p) [] h = cc
strip_prefix-eq_some (c ∷ p) (x ∷ s) {after} h =
    ground (arith, strip_prefix-eq_some p s {after = after})

abbrev pub Lacks : ℕ → Bytes → Type 0
Lacks c s = All (λ x. x ≢ c) s

-- `cut` finds the first occurrence.
pub cut-eq_some :
    (c : ℕ) (s : Bytes) {before after : Bytes}
    → cut c s ≡ some (before, after)
    → (s ≡ before ++ c ∷ after) × Lacks c before
unfolding cut
cut-eq_some c [] h = cc
cut-eq_some c (x ∷ s) {before} {after} h = elim (Bool-cases (x == c)) [
  | inl e ↦ ground arith
  | inr ne ↦ elim (Option-cases (cut c s)) [
    | inl missing ↦ ground arith
    | inr ((b, a), found) ↦ ground (arith, cut-eq_some c s found)
  ]
]

pub cut-append :
    (c : ℕ) (before after : Bytes)
    → Lacks c before
    → cut c (before ++ c ∷ after) ≡ some (before, after)
unfolding cut
cut-append c [] after _ = ground arith
cut-append c (x ∷ before) after (p, h) = ground (arith, cut-append c before after h)

pub cut-eq_none : (c : ℕ) (s : Bytes) → (cut c s ≡ none) ↔ Lacks c s
unfolding cut
cut-eq_none c [] = ground arith
cut-eq_none c (x ∷ s) = elim (Option-cases (cut c s)) [
  | inl missing ↦ ground (arith, cut-eq_none c s)
  | inr ((b, a), found) ↦ ground (arith, cut-eq_none c s)
]

-- Segments.
pub split_on-eq_singleton : (c : ℕ) (s : Bytes) → Lacks c s → split_on c s ≡ s ∷ []
unfolding split_on
split_on-eq_singleton c [] _ = refl
split_on-eq_singleton c (x ∷ s) (p, h) = ground (arith, split_on-eq_singleton c s h)

pub split_on-append : (c : ℕ) (a b : Bytes) → Lacks c a → split_on c (a ++ c ∷ b) ≡ a ∷ split_on c b
unfolding split_on
split_on-append c [] b _ = ground arith
split_on-append c (x ∷ a) b (p, h) = ground (arith, split_on-append c a b h)

cons_head-Lacks :
    (c x : ℕ) (xs : List Bytes) → x ≢ c → All (Lacks c) xs → All (Lacks c) (cons_head x xs)
cons_head-Lacks c x [] n _ = ((n, tt), tt)
cons_head-Lacks c x (y ∷ ys) n (h, hs) = ((n, h), hs)

-- No segment holds the separator.
pub split_on-Lacks : (c : ℕ) (s : Bytes) → All (Lacks c) (split_on c s)
unfolding split_on
split_on-Lacks c [] = (tt, tt)
split_on-Lacks c (x ∷ s) = elim (Bool-cases (x == c)) [
  | inl e ↦ rw e (tt, split_on-Lacks c s)
  | inr ne ↦ rw ne (cons_head-Lacks c x (split_on c s) (ground arith) (split_on-Lacks c s))
]

pub join_with-cons :
    (c : ℕ) (x : Bytes) (xs : List Bytes) → xs ≢ [] → join_with c (x ∷ xs) ≡ x ++ c ∷ join_with c xs
unfolding join_with
join_with-cons c x [] h = absurd (h refl)
join_with-cons c x (y ∷ xs) h = refl

split_on-ne-nil : (c : ℕ) (s : Bytes) → split_on c s ≢ []
unfolding split_on
split_on-ne-nil c [] = ground arith
split_on-ne-nil c (x ∷ s) = elim (Bool-cases (x == c)) [
  | inl e ↦ ground arith
  | inr ne ↦ rw ne (cons_head-ne-nil (split_on c s))
]
  where
    cons_head-ne-nil : (xs : List Bytes) → cons_head x xs ≢ []
    cons_head-ne-nil [] = ground arith
    cons_head-ne-nil (y ∷ ys) = ground arith

join_with-cons_head :
    (c x : ℕ) (xs : List Bytes) → xs ≢ [] → join_with c (cons_head x xs) ≡ x ∷ join_with c xs
unfolding join_with
join_with-cons_head c x [] h = absurd (h refl)
join_with-cons_head c x (y ∷ []) h = refl
join_with-cons_head c x (y ∷ z ∷ xs) h = refl

-- Joining the segments gives the view back.
pub join_with-split_on : (c : ℕ) (s : Bytes) → join_with c (split_on c s) ≡ s
unfolding split_on
join_with-split_on c [] = unfold join_with in refl
join_with-split_on c (x ∷ s) = elim (Bool-cases (x == c)) [
  | inl e ↦ rw e (
      join_with-cons c [] (split_on c s) (split_on-ne-nil c s)
      ∙ ground (arith, join_with-split_on c s))
  | inr ne ↦ rw ne (
      join_with-cons_head c x (split_on c s) (split_on-ne-nil c s)
      ∙ ap (◌∷◌ x) (join_with-split_on c s))
]
