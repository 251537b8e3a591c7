-- ===== src/Http/Head/Terminator.antt =====
-- The terminator of a head (`head_bounds` of include/vermell/http/message.hpp) is found where it
-- stands, whatever follows it.
use vermell.Http.Head.{Bounds, head_bounds, crlf_crlf, lf_lf}
use vermell.Prelude.{
  ℕ, ◌+◌, ◌≤◌, ◌≡◌, refl, sym, ap, ◌∙◌, subst, ◌⊎◌, inl, inr, Option, none, some, [], ◌∷◌, ◌++◌,
  arith, Option-cases, strip_prefix-eq_some, Bytes, strip_prefix, cut_seq, some-injective, length,
  length-append, strip_prefix-none_local,
}

abbrev push_head : ℕ → Option Bounds → Option Bounds
push_head x none = none
push_head x (some b) = some (record b { head = x ∷ b.head })

head_bounds_there :
    (x : ℕ) (s : Bytes)
    → strip_prefix crlf_crlf (x ∷ s) ≡ none
    → strip_prefix lf_lf (x ∷ s) ≡ none
    → head_bounds (x ∷ s) ≡ push_head x (head_bounds s)
unfolding head_bounds cut_seq
head_bounds_there x s h k = ground arith

head_bounds_lf :
    (t : Bytes) → head_bounds (lf_lf ++ t) ≡ some (record { head = []; separator = 2; tail = t })
unfolding head_bounds cut_seq strip_prefix
head_bounds_lf t = ground arith

head_bounds_crlf :
    (t : Bytes)
    → head_bounds (crlf_crlf ++ t) ≡ some (record { head = []; separator = 4; tail = t })
unfolding head_bounds cut_seq strip_prefix
head_bounds_crlf t = ground arith

-- `s` is a prefix that ends with the terminator and then the tail, and any other tail is found as
-- well.
pub record IsBounded (s : Bytes) (b : Bounds) : Type 0 where
  pub prefix : Bytes
  pub splits : s ≡ prefix ++ b.tail
  pub prefix_size : length prefix ≡ length b.head + b.separator
  pub ending : (3 ≤ length prefix) ⊎ (prefix ≡ lf_lf)
  pub again : (t : Bytes) → head_bounds (prefix ++ t) ≡ some (record b { tail = t })

no_crlf :
    (x : ℕ) (p s t : Bytes)
    → (3 ≤ length p) ⊎ (p ≡ lf_lf)
    → strip_prefix crlf_crlf (x ∷ (p ++ s)) ≡ none
    → strip_prefix crlf_crlf (x ∷ (p ++ t)) ≡ none
no_crlf x p s t (inl long) h = strip_prefix-none_local crlf_crlf (x ∷ p) s t (omega arith) h
no_crlf x p s t (inr e) h = rw e (unfold strip_prefix in ground arith)

IsBounded-long : (x : ℕ) {p : Bytes} → (3 ≤ length p) ⊎ (p ≡ lf_lf) → 3 ≤ length (x ∷ p)
IsBounded-long x (inl long) = omega arith
IsBounded-long x (inr e) = rw e (omega arith)

IsBounded-cons :
    (x : ℕ) {s : Bytes} {b : Bounds}
    → strip_prefix crlf_crlf (x ∷ s) ≡ none
    → strip_prefix lf_lf (x ∷ s) ≡ none
    → IsBounded s b
    → IsBounded (x ∷ s) (record b { head = x ∷ b.head })
IsBounded-cons x {s} {b} h k d = record {
  prefix = x ∷ d.prefix;
  splits = ap (◌∷◌ x) d.splits;
  prefix_size = omega (arith, d.prefix_size);
  ending = inl (IsBounded-long x d.ending);
  again = λ t.
      head_bounds_there x (d.prefix ++ t) (no_crlf x d.prefix b.tail t d.ending (rw d.splits at h))
        (strip_prefix-none_local lf_lf (x ∷ d.prefix) b.tail t
          (omega (arith, IsBounded-long x d.ending)) (rw d.splits at k))
      ∙ ap (push_head x) (d.again t);
}

-- The terminator depends on nothing behind it.
pub head_bounds-IsBounded : (s : Bytes) {b : Bounds} → head_bounds s ≡ some b → IsBounded s b
head_bounds-IsBounded [] h = unfold head_bounds cut_seq in cc
head_bounds-IsBounded (x ∷ s) {b} h = elim (Option-cases (strip_prefix lf_lf (x ∷ s))) [
  | inr (t, found) ↦
      let split = strip_prefix-eq_some lf_lf (x ∷ s) found in
      subst (IsBounded (x ∷ s)) (some-injective (sym (head_bounds_lf t) ∙ (rw (← split) h)))
        (record {
          prefix = lf_lf;
          splits = split;
          prefix_size = refl;
          ending = inr refl;
          again = head_bounds_lf;
        })
  | inl no_lf ↦ elim (Option-cases (strip_prefix crlf_crlf (x ∷ s))) [
    | inr (t, found) ↦
        let split = strip_prefix-eq_some crlf_crlf (x ∷ s) found in
        subst (IsBounded (x ∷ s)) (some-injective (sym (head_bounds_crlf t) ∙ (rw (← split) h)))
          (record {
            prefix = crlf_crlf;
            splits = split;
            prefix_size = refl;
            ending = inl (omega arith);
            again = head_bounds_crlf;
          })
    | inl other ↦ elim (Option-cases (head_bounds s)) [
      | inl missing ↦
          absurd (cc (sym h ∙ head_bounds_there x s other no_lf ∙ ap (push_head x) missing))
      | inr (b', found) ↦
          subst (IsBounded (x ∷ s))
            (some-injective
              (ap (push_head x) (sym found) ∙ sym (head_bounds_there x s other no_lf) ∙ h))
            (IsBounded-cons x other no_lf (head_bounds-IsBounded s found))
    ]
  ]
]

-- The head, its terminator and the tail make up the request.
pub head_bounds-length :
    (s : Bytes) {b : Bounds}
    → head_bounds s ≡ some b
    → length s ≡ length b.head + b.separator + length b.tail
head_bounds-length s {b} h =
    let d = head_bounds-IsBounded s h in
    ap length d.splits ∙ length-append d.prefix b.tail ∙ ap (λ n. n + length b.tail) d.prefix_size
