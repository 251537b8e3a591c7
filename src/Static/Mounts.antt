-- ===== src/Static/Mounts.antt =====
-- `StaticMount::normalize_mount` of include/vermell/util/static_files.h.
use vermell.Static.{normalize_mount, drop_last_slashes, add_first_slash, is_slash}
use vermell.Prelude.{
  ℕ, ◌≡◌, refl, sym, ap, ◌∙◌, subst, inl, inr, Bool, true, false, ◌&&◌, some, [], ◌∷◌, arith,
  if◌then◌else◌, Bool-cases, Bytes, is_empty, drop_while_end, some-injective, get_last?,
}

-- The last byte is no slash.
abbrev pub EndsBare : Bytes → Type 0
EndsBare s = (last : ℕ) → get_last? s ≡ some last → is_slash last ≡ false

-- A first slash, and no other one at the end.
pub record IsPrefix (s : Bytes) : Type 0 where
  pub rest : Bytes
  pub first : s ≡ b'/' ∷ rest
  pub ends : EndsBare rest

get_last?-cons : (c : ℕ) (s : Bytes) → is_empty s ≡ false → get_last? (c ∷ s) ≡ get_last? s
get_last?-cons c [] h = cc
get_last?-cons c (d ∷ s) h = refl

drop_while_end-EndsBare : (s : Bytes) → EndsBare (drop_while_end is_slash s)
unfolding drop_while_end
drop_while_end-EndsBare [] last h = cc
drop_while_end-EndsBare (c ∷ s) last h = elim (Bool-cases (is_empty (drop_while_end is_slash s))) [
  | inr more ↦
      let dropped : (is_slash c && is_empty (drop_while_end is_slash s)) ≡ false = ground arith in
      drop_while_end-EndsBare s last
        (sym (get_last?-cons c (drop_while_end is_slash s) more) ∙ (rw dropped at h))
  | inl none_left ↦ elim (Bool-cases (is_slash c)) [
    | inl gone ↦ absurd (cc (rw (gone, none_left) at h))
    | inr kept ↦ only c (drop_while_end is_slash s) none_left kept (rw kept at h)
  ]
]
  where
    only :
        (c : ℕ) (rest : Bytes)
        → is_empty rest ≡ true
        → is_slash c ≡ false
        → get_last? (c ∷ rest) ≡ some last
        → is_slash last ≡ false
    only c [] _ kept e = subst (λ x. is_slash x ≡ false) (some-injective e) kept
    only c (d ∷ rest) h kept e = cc

drop_while_end_of_EndsBare : (s : Bytes) → EndsBare s → drop_while_end is_slash s ≡ s
unfolding drop_while_end
drop_while_end_of_EndsBare [] h = refl
drop_while_end_of_EndsBare (c ∷ []) h = rw (h c refl) refl
drop_while_end_of_EndsBare (c ∷ d ∷ s) h =
    let rest = drop_while_end_of_EndsBare (d ∷ s) (λ last e. h last e) in
    rw rest (rw_and (is_slash c))
  where
    rw_and : (b : Bool) → (if b && false then [] else c ∷ d ∷ s) ≡ c ∷ d ∷ s
    rw_and true = refl
    rw_and false = refl

add_first_slash-cons : (s : Bytes) → (rest : Bytes) × (add_first_slash s ≡ b'/' ∷ rest)
add_first_slash-cons [] = ([], refl)
add_first_slash-cons (c ∷ s) = elim (Bool-cases (is_slash c)) [
  | inl first ↦ (s, rw first (ap (λ x. x ∷ s) (ground arith)))
  | inr other ↦ (c ∷ s, rw other refl)
]

-- Whatever the prefix is: normalized, it begins with a slash, and what follows that does not end with
-- one; and a prefix of that form is left as it is, so normalizing again changes nothing.
pub normalize_mount-IsPrefix :
    (mount : Bytes)
    → IsPrefix (normalize_mount mount) × ((s : Bytes) → IsPrefix s → normalize_mount s ≡ s)
unfolding normalize_mount
normalize_mount-IsPrefix mount = (normal mount, fixed)
  where
    normal : (s : Bytes) → IsPrefix (normalize_mount s)
    normal s =
        let (rest, e) = add_first_slash-cons s in
        record {
          rest = drop_while_end is_slash rest;
          first = ap drop_last_slashes e;
          ends = drop_while_end-EndsBare rest;
        }

    fixed : (s : Bytes) → IsPrefix s → normalize_mount s ≡ s
    fixed s h = rw (h.first) (ap (◌∷◌ b'/') (drop_while_end_of_EndsBare h.rest h.ends))
