-- ===== src/Json/Depth.antt =====
-- The depth limit of `JsonParser` (include/vermell/util/json.hpp).
use vermell.Json.{
  Json, null, bool, string, array, object, Items, no_items, item, Members, no_members, member,
  FloatText, is_finite,
}
use vermell.Json.Parser.{
  skip_ws, to_string, to_array, to_object, parse_literal, real_value, number_value, parse_number,
  add_item, add_member, parse_items, parse_array, parse_member, parse_members, parse_object,
  parse_value, parse, parse_string, scan_number, expect_colon,
}
use vermell.Json.Consuming.{Bytes-cases}
use vermell.Json.RoundTrip.{depth, depth_items, depth_members}
use vermell.Params.{from_chars}
use vermell.Prelude.{
  ℕ, zero, suc, ◌≤◌, ◌≡◌, refl, sym, ap, ◌∙◌, subst, inl, inr, Bool, true, false, Option, none,
  some, [], ◌∷◌, arith, ◌==◌, if◌then◌else◌, Bool-cases, Option-cases, if-true, if-false, Bytes,
  codes, is_empty, strip_prefix, >>=-eq-some, some-injective, length,
}

-- What a parser returns is not deeper than `n`.
abbrev IsWithin : ℕ → Option (Json × Bytes) → Type 0
IsWithin n r = (v : Json) (rest : Bytes) → r ≡ some (v, rest) → depth v ≤ n

abbrev AreWithin : ℕ → Option (Items × Bytes) → Type 0
AreWithin n r = (xs : Items) (rest : Bytes) → r ≡ some (xs, rest) → depth_items xs ≤ n

abbrev HaveWithin : ℕ → Option (Members × Bytes) → Type 0
HaveWithin n r = (ms : Members) (rest : Bytes) → r ≡ some (ms, rest) → depth_members ms ≤ n

if-both {ℓ} :
    {A : Type ℓ} (P : A → Type 0) (b : Bool) {x y : A} → P x → P y → P (if b then x else y)
if-both P true p q = p
if-both P false p q = q

just-IsWithin : (n : ℕ) (v : Json) (rest : Bytes) → depth v ≤ n → IsWithin n (some (v, rest))
just-IsWithin n v rest le v' rest' e =
    subst (λ x. depth x ≤ n) (ap (λ p. p.0) (some-injective e)) le

nothing-IsWithin : (n : ℕ) → IsWithin n none
nothing-IsWithin n v rest e = absurd (cc e)

parse_literal-IsWithin :
    (ft : FloatText) (n : ℕ) (lit : Bytes) (v : Json) (s : Bytes)
    → depth v ≤ n
    → IsWithin n (parse_literal ft lit v s)
parse_literal-IsWithin ft n lit v s le = elim (Option-cases (strip_prefix lit s)) [
  | inl missing ↦ rw (parse_literal, missing) (nothing-IsWithin n)
  | inr (rest, found) ↦ rw (parse_literal, found) (just-IsWithin n v rest le)
]

real_value-depth :
    (ft : FloatText) (token : Bytes) {v : Json} → real_value ft token ≡ some v → depth v ≤ 1
unfolding real_value depth
real_value-depth ft token {v} e = elim (Option-cases (ft.from_chars token)) [
  | inl missing ↦ absurd (cc (rw (missing, real_value) at e))
  | inr (d, found) ↦ elim (Bool-cases (is_finite d)) [
    | inl finite ↦
        subst (λ x. depth x ≤ 1) (some-injective (rw (found, real_value, finite) at e))
          (omega arith)
    | inr odd ↦ absurd (cc (rw (found, real_value, odd) at e))
  ]
]

number_value-depth :
    (ft : FloatText) (token : Bytes) (real : Bool) {v : Json}
    → number_value ft token real ≡ some v
    → depth v ≤ 1
unfolding number_value depth
number_value-depth ft token true e = real_value-depth ft token e
number_value-depth ft token false e = elim (Option-cases (from_chars 64 token)) [
  | inl wide ↦ real_value-depth ft token (rw (wide, number_value) at e)
  | inr (z, found) ↦
      subst (λ x. depth x ≤ 1) (some-injective (rw (found, number_value) at e)) (omega arith)
]

parse_number-IsWithin : (ft : FloatText) (n : ℕ) (s : Bytes) → IsWithin (suc n) (parse_number ft s)
unfolding parse_number
parse_number-IsWithin ft n s v rest e =
    let (scan, found, e1) = >>=-eq-some (scan_number s) _ e in
    let (v', found', e2) = >>=-eq-some (number_value ft scan.0 scan.1) _ e1 in
    let le = number_value-depth ft scan.0 scan.1 found' in
    subst (λ x. depth x ≤ suc n) (ap (λ p. p.0) (some-injective e2)) (omega arith)

to_string-IsWithin :
    (ft : FloatText) (n : ℕ) (r : Option (Bytes × Bytes)) → IsWithin (suc n) (to_string ft r)
unfolding depth
to_string-IsWithin ft n none = nothing-IsWithin (suc n)
to_string-IsWithin ft n (some (s, rest)) = just-IsWithin (suc n) (string s) rest (omega arith)

to_array-IsWithin :
    (ft : FloatText) (n : ℕ) (r : Option (Items × Bytes))
    → AreWithin n r
    → IsWithin (suc n) (to_array ft r)
unfolding depth
to_array-IsWithin ft n none _ = nothing-IsWithin (suc n)
to_array-IsWithin ft n (some (xs, rest)) h =
    just-IsWithin (suc n) (array xs) rest (omega (arith, h xs rest refl))

to_object-IsWithin :
    (ft : FloatText) (n : ℕ) (r : Option (Members × Bytes))
    → HaveWithin n r
    → IsWithin (suc n) (to_object ft r)
unfolding depth
to_object-IsWithin ft n none _ = nothing-IsWithin (suc n)
to_object-IsWithin ft n (some (ms, rest)) h =
    just-IsWithin (suc n) (object ms) rest (omega (arith, h ms rest refl))

module _ (ft : FloatText) (n : ℕ) (value : Bytes → Option (Json × Bytes))
    (bounded : (s : Bytes) → IsWithin n (value s)) where
  just_items : (xs : Items) (rest : Bytes) → depth_items xs ≤ n → AreWithin n (some (xs, rest))
  just_items xs rest le xs' rest' e =
      subst (λ x. depth_items x ≤ n) (ap (λ p. p.0) (some-injective e)) le

  add_item-AreWithin :
      (v : Json) (r : Option (Items × Bytes))
      → depth v ≤ n
      → AreWithin n r
      → AreWithin n (add_item ft v r)
  unfolding depth_items
  add_item-AreWithin v none le h = λ xs rest e. absurd (cc e)
  add_item-AreWithin v (some (ys, rest)) le h =
      just_items (item v ys) rest (omega (arith, h ys rest refl))

  parse_items-AreWithin : (fuel : ℕ) (s : Bytes) → AreWithin n (parse_items ft value fuel s)
  unfolding parse_items depth_items
  parse_items-AreWithin zero s = λ xs rest e. absurd (cc e)
  parse_items-AreWithin (suc fuel) s = elim (Option-cases (value (skip_ws s))) [
    | inl wrong ↦ rw (parse_items, wrong) (λ xs rest e. absurd (cc e))
    | inr (read, found) ↦
        let le = bounded (skip_ws s) read.0 read.1 found in
        elim (Bytes-cases (skip_ws read.1)) [
          | inl ended ↦ rw (parse_items, found, ended) (λ xs rest e. absurd (cc e))
          | inr (c, t, behind) ↦
              rw (parse_items, found, behind)
                (if-both (AreWithin n) (c == b',')
                  (add_item-AreWithin read.0 _ le (parse_items-AreWithin fuel t))
                  (if-both (AreWithin n) (c == b']')
                    (just_items (item read.0 no_items) t (omega arith))
                    (λ xs rest e. absurd (cc e))))
        ]
  ]

  parse_array-AreWithin : (s : Bytes) → AreWithin n (parse_array ft value s)
  unfolding parse_array depth_items
  parse_array-AreWithin s = elim (Bytes-cases (skip_ws s)) [
    | inl ended ↦ rw (parse_array, ended) (λ xs rest e. absurd (cc e))
    | inr (c, t, begun) ↦
        rw (parse_array, begun)
          (if-both (AreWithin n) (c == b']') (just_items no_items t (omega arith))
            (parse_items-AreWithin (suc (length (c ∷ t))) (c ∷ t)))
  ]

  just_members :
      (ms : Members) (rest : Bytes) → depth_members ms ≤ n → HaveWithin n (some (ms, rest))
  just_members ms rest le ms' rest' e =
      subst (λ x. depth_members x ≤ n) (ap (λ p. p.0) (some-injective e)) le

  add_member-HaveWithin :
      (k : Bytes) (v : Json) (r : Option (Members × Bytes))
      → depth v ≤ n
      → HaveWithin n r
      → HaveWithin n (add_member ft k v r)
  unfolding depth_members
  add_member-HaveWithin k v none le h = λ ms rest e. absurd (cc e)
  add_member-HaveWithin k v (some (ns, rest)) le h =
      just_members (member k v ns) rest (omega (arith, h ns rest refl))

  parse_member-depth :
      (s : Bytes) {k : Bytes} {v : Json} {rest : Bytes}
      → parse_member ft value s ≡ some (k, v, rest)
      → depth v ≤ n
  unfolding parse_member
  parse_member-depth s e =
      let (key, found, e1) = >>=-eq-some (parse_string (skip_ws s)) _ e in
      let (colon, found', e2) = >>=-eq-some (expect_colon ft (skip_ws key.1)) _ e1 in
      let (read, found'', e3) = >>=-eq-some (value (skip_ws colon)) _ e2 in
      subst (λ x. depth x ≤ n) (ap (λ p. p.1) (some-injective e3))
        (bounded (skip_ws colon) read.0 read.1 found'')

  parse_members-HaveWithin : (fuel : ℕ) (s : Bytes) → HaveWithin n (parse_members ft value fuel s)
  unfolding parse_members depth_members
  parse_members-HaveWithin zero s = λ ms rest e. absurd (cc e)
  parse_members-HaveWithin (suc fuel) s = elim (Option-cases (parse_member ft value s)) [
    | inl wrong ↦ rw (parse_members, wrong) (λ ms rest e. absurd (cc e))
    | inr (read, found) ↦
        let le = parse_member-depth s found in
        elim (Bytes-cases (skip_ws read.2)) [
          | inl ended ↦ rw (parse_members, found, ended) (λ ms rest e. absurd (cc e))
          | inr (c, t, behind) ↦
              rw (parse_members, found, behind)
                (if-both (HaveWithin n) (c == b',')
                  (add_member-HaveWithin read.0 read.1 _ le (parse_members-HaveWithin fuel t))
                  (if-both (HaveWithin n) (c == b'}')
                    (just_members (member read.0 read.1 no_members) t (omega arith))
                    (λ ms rest e. absurd (cc e))))
        ]
  ]

  parse_object-HaveWithin : (s : Bytes) → HaveWithin n (parse_object ft value s)
  unfolding parse_object depth_members
  parse_object-HaveWithin s = elim (Bytes-cases (skip_ws s)) [
    | inl ended ↦ rw (parse_object, ended) (λ ms rest e. absurd (cc e))
    | inr (c, t, begun) ↦
        rw (parse_object, begun)
          (if-both (HaveWithin n) (c == b'}') (just_members no_members t (omega arith))
            (parse_members-HaveWithin (suc (length (c ∷ t))) (c ∷ t)))
  ]

parse_value-IsWithin :
    (ft : FloatText) (levels : ℕ) (s : Bytes) → IsWithin levels (parse_value ft levels s)
unfolding parse_value depth
parse_value-IsWithin ft zero s = nothing-IsWithin 0
parse_value-IsWithin ft (suc levels) [] = parse_number-IsWithin ft levels []
parse_value-IsWithin ft (suc levels) (c ∷ s) =
    let P : Option (Json × Bytes) → Type 0 = IsWithin (suc levels) in
    let inner = parse_value-IsWithin ft levels in
    let literal = parse_literal-IsWithin ft (suc levels) in
    if-both P (c == b'n') (literal (codes "null") null (c ∷ s) (omega arith)) (
      if-both P (c == b't') (literal (codes "true") (bool true) (c ∷ s) (omega arith)) (
        if-both P (c == b'f') (literal (codes "false") (bool false) (c ∷ s) (omega arith)) (
          if-both P (c == b'"') (to_string-IsWithin ft levels (parse_string (c ∷ s))) (
            if-both P (c == b'[')
              (to_array-IsWithin ft levels _
                (parse_array-AreWithin ft levels (parse_value ft levels) inner s))
              (if-both P (c == b'{')
                (to_object-IsWithin ft levels _
                  (parse_object-HaveWithin ft levels (parse_value ft levels) inner s))
                (parse_number-IsWithin ft levels (c ∷ s)))))))

-- Whatever the text is, a value that it is parsed to has at most 257 levels, where a number, a string
-- or an empty array has one.
pub parse-depth :
    (ft : FloatText) (text : Bytes) {v : Json} → parse ft text ≡ some v → depth v ≤ 257
unfolding parse
parse-depth ft text {v} e =
    let (read, found, e1) = >>=-eq-some (parse_value ft 257 (skip_ws text)) _ e in
    let le = parse_value-IsWithin ft 257 (skip_ws text) read.0 read.1 found in
    elim (Bool-cases (is_empty (skip_ws read.1))) [
      | inl ended ↦ subst (λ x. depth x ≤ 257) (some-injective (sym (if-true _ _ _ ended) ∙ e1)) le
      | inr more ↦ absurd (cc (sym (if-false _ _ _ more) ∙ e1))
    ]
