-- ===== src/Json/Consuming.antt =====
-- What the parsers of include/vermell/util/json.hpp leave of a text is not longer than the text.
use vermell.Prelude.{
  ℕ, zero, suc, ◌≤◌, ◌≡◌, refl, sym, ap, ◌∙◌, ◌⊎◌, inl, inr, Bool, Option, none, some, [], ◌∷◌,
  arith, ltb, ◌==◌, if◌then◌else◌, Bool-cases, Option-cases, if-true, if-false, Bytes, drop_while,
  >>=-eq-some, some-injective, length,
}
use vermell.Json.{Json, Items, no_items, item, Members, no_members, member, FloatText}
use vermell.Json.Parser.{
  skip_ws, parse_escape, put_front, parse_chars, parse_string, span_digits, digits1, scan_sign,
  scan_int, scan_frac, scan_exp_sign, scan_exp, scan_number, number_value, parse_number,
  expect_colon, add_item, add_member, parse_items, parse_array, parse_member, parse_members,
  parse_object,
}

pub skip_ws-length : (s : Bytes) → length (skip_ws s) ≤ length s
unfolding skip_ws drop_while
skip_ws-length [] = omega arith
skip_ws-length (c ∷ s) = let rest = skip_ws-length s in ground arith

put_front-rest :
    (out : Bytes) (r : Option (Bytes × Bytes)) {t rest : Bytes}
    → put_front out r ≡ some (t, rest)
    → (t' : Bytes) × (r ≡ some (t', rest))
put_front-rest out none e = absurd (cc e)
put_front-rest out (some (t', rest')) e = (t', cc)

parse_chars-length :
    (skip : ℕ) (s : Bytes) {t rest : Bytes}
    → parse_chars skip s ≡ some (t, rest)
    → length rest ≤ length s
unfolding parse_chars
parse_chars-length skip [] e = absurd (cc e)
parse_chars-length (suc skip) (c ∷ s) e = let shorter = parse_chars-length skip s e in omega arith
parse_chars-length zero (c ∷ s) {t} {rest} e = elim (Bool-cases (c == b'"')) [
  | inl quote ↦
      let same_rest : s ≡ rest = ap (λ p. p.1) (some-injective (sym (if-true _ _ _ quote) ∙ e)) in
      omega (arith, ap length same_rest)
  | inr unquoted ↦
      let behind = sym (if-false _ _ _ unquoted) ∙ e in
      elim (Bool-cases (c == b'\\')) [
        | inl escaping ↦
            let escaped = sym (if-true _ _ _ escaping) ∙ behind in
            elim (Option-cases (parse_escape s)) [
              | inl wrong ↦ absurd (cc (rw wrong at escaped))
              | inr (read, found) ↦
                  let (t', later) =
                    put_front-rest read.0 (parse_chars read.1 s) (rw found at escaped) in
                  let shorter = parse_chars-length read.1 s later in omega arith
            ]
        | inr plain ↦ elim (Bool-cases (ltb c 0x20)) [
          | inl control ↦
              absurd (cc (sym (if-true _ _ _ control) ∙ (sym (if-false _ _ _ plain) ∙ behind)))
          | inr fine ↦
              let put = sym (if-false _ _ _ fine) ∙ (sym (if-false _ _ _ plain) ∙ behind) in
              let (t', later) = put_front-rest (c ∷ []) (parse_chars 0 s) put in
              let shorter = parse_chars-length 0 s later in omega arith
        ]
      ]
]

span_digits-length : (s : Bytes) → length (span_digits s).1 ≤ length s
unfolding span_digits
span_digits-length [] = omega arith
span_digits-length (c ∷ s) = let rest = span_digits-length s in ground arith

digits1-length :
    (s : Bytes) {ds rest : Bytes} → digits1 s ≡ some (ds, rest) → length rest ≤ length s
digits1-length s e = let shorter = span_digits-length s in ground arith

scan_sign-length : (s : Bytes) → length (scan_sign s).1 ≤ length s
unfolding scan_sign
scan_sign-length [] = omega arith
scan_sign-length (c ∷ s) = ground arith

scan_int-length :
    (s : Bytes) {ds rest : Bytes} → scan_int s ≡ some (ds, rest) → length rest ≤ length s
unfolding scan_int
scan_int-length [] e = absurd (cc e)
scan_int-length (c ∷ s) e = let shorter = span_digits-length (c ∷ s) in ground arith

scan_frac-length :
    (s : Bytes) {ds rest : Bytes} → scan_frac s ≡ some (ds, rest) → length rest ≤ length s
unfolding scan_frac
scan_frac-length [] e = ground arith
scan_frac-length (c ∷ s) e = let shorter = span_digits-length s in ground arith

scan_exp_sign-length : (s : Bytes) → length (scan_exp_sign s).1 ≤ length s
unfolding scan_exp_sign
scan_exp_sign-length [] = omega arith
scan_exp_sign-length (c ∷ s) = ground arith

scan_exp-length :
    (s : Bytes) {ds rest : Bytes} → scan_exp s ≡ some (ds, rest) → length rest ≤ length s
unfolding scan_exp
scan_exp-length [] e = ground arith
scan_exp-length (c ∷ s) e =
    let shorter = span_digits-length (scan_exp_sign s).1 in
    let signed = scan_exp_sign-length s in ground arith

scan_number-length :
    (s : Bytes) {token : Bytes} {real : Bool} {rest : Bytes}
    → scan_number s ≡ some (token, real, rest)
    → length rest ≤ length s
unfolding scan_number
scan_number-length s e =
    let signed = scan_sign-length s in
    let (whole, found, e1) = >>=-eq-some (scan_int (scan_sign s).1) _ e in
    let (frac, found', e2) = >>=-eq-some (scan_frac whole.1) _ e1 in
    let (exponent, found'', e3) = >>=-eq-some (scan_exp frac.1) _ e2 in
    let last = ap (λ p. length p.2) (some-injective e3) in
    let a = scan_int-length (scan_sign s).1 found in
    let b = scan_frac-length whole.1 found' in let d = scan_exp-length frac.1 found'' in omega arith

-- A parser leaves no more than it gets.
abbrev pub Shrinks : (Bytes → Option (Json × Bytes)) → Type 0
Shrinks value =
    (s : Bytes) (v : Json) (rest : Bytes) → value s ≡ some (v, rest) → length rest ≤ length s

pub parse_number-length : (ft : FloatText) → Shrinks (parse_number ft)
unfolding parse_number
parse_number-length ft s v' rest e =
    let (scan, found, e1) = >>=-eq-some (scan_number s) _ e in
    let (v, found', e2) = >>=-eq-some (number_value ft scan.0 scan.1) _ e1 in
    let shorter = scan_number-length s found in
    omega (arith, ap (λ p. length p.1) (some-injective e2))

pub parse_string-length :
    (s : Bytes) {t rest : Bytes} → parse_string s ≡ some (t, rest) → length rest ≤ length s
unfolding parse_string
parse_string-length [] e = absurd (cc e)
parse_string-length (c ∷ s) e = elim (Bool-cases (c == b'"')) [
  | inl quote ↦ let shorter = parse_chars-length 0 s (sym (if-true _ _ _ quote) ∙ e) in omega arith
  | inr other ↦ absurd (cc (sym (if-false _ _ _ other) ∙ e))
]

expect_colon-length :
    (ft : FloatText) (s : Bytes) {rest : Bytes}
    → expect_colon ft s ≡ some rest
    → length rest ≤ length s
expect_colon-length ft [] e = absurd (cc e)
expect_colon-length ft (c ∷ s) e = elim (Bool-cases (c == b':')) [
  | inl colon ↦
      let same_rest = ap length (some-injective (sym (if-true _ _ _ colon) ∙ e)) in omega arith
  | inr other ↦ absurd (cc (sym (if-false _ _ _ other) ∙ e))
]

pub Bytes-cases : (s : Bytes) → (s ≡ []) ⊎ ((c : ℕ) × (t : Bytes) × (s ≡ c ∷ t))
Bytes-cases [] = inl refl
Bytes-cases (c ∷ s) = inr (c, s, refl)

module _ (ft : FloatText) (value : Bytes → Option (Json × Bytes)) (shrinks : Shrinks value) where
  add_item-rest :
      (v : Json) (r : Option (Items × Bytes)) {xs : Items} {rest : Bytes}
      → add_item ft v r ≡ some (xs, rest)
      → (ys : Items) × (r ≡ some (ys, rest))
  add_item-rest v none e = absurd (cc e)
  add_item-rest v (some (ys, rest)) e = (ys, cc)

  -- Behind an item: a comma and more items, or the bracket.
  items-rest :
      (fuel : ℕ) (v : Json) (c : ℕ) (t : Bytes) {xs : Items} {rest : Bytes}
      → (if c == b','
          then add_item ft v (parse_items ft value fuel t)
          else if c == b']'
          then some (item v no_items, t)
          else none)
        ≡ some (xs, rest)
      → ((ys : Items) (r : Bytes)
          → parse_items ft value fuel t ≡ some (ys, r)
          → length r ≤ length t)
      → length rest ≤ length t
  items-rest fuel v c t e later = elim (Bool-cases (c == b',')) [
    | inl comma ↦
        let (ys, more) =
          add_item-rest v (parse_items ft value fuel t) (sym (if-true _ _ _ comma) ∙ e) in
        later _ _ more
    | inr last ↦
        let e' = sym (if-false _ _ _ last) ∙ e in
        elim (Bool-cases (c == b']')) [
          | inl close ↦
              let same_rest =
                ap (λ p. length p.1) (some-injective (sym (if-true _ _ _ close) ∙ e')) in
              omega arith
          | inr wrong ↦ absurd (cc (sym (if-false _ _ _ wrong) ∙ e'))
        ]
  ]

  parse_items-length :
      (fuel : ℕ) (s : Bytes) {xs : Items} {rest : Bytes}
      → parse_items ft value fuel s ≡ some (xs, rest)
      → length rest ≤ length s
  unfolding parse_items
  parse_items-length zero s e = absurd (cc e)
  parse_items-length (suc fuel) s {xs} {rest} e = elim (Option-cases (value (skip_ws s))) [
    | inl wrong ↦ absurd (cc (rw (wrong, parse_items) at e))
    | inr (read, found) ↦ elim (Bytes-cases (skip_ws read.1)) [
      | inl ended ↦ absurd (cc (rw (found, ended, parse_items) at e))
      | inr (c, t, behind) ↦
          let shorter = shrinks (skip_ws s) _ _ found in
          let a = skip_ws-length s in
          let b = skip_ws-length read.1 in
          let size = ap length behind in
          let e' = rw (found, behind, parse_items) at e in
          let later = items-rest fuel read.0 c t e' (λ ys r more. parse_items-length fuel t more) in
          omega arith
    ]
  ]

  pub parse_array-length :
      (s : Bytes) {xs : Items} {rest : Bytes}
      → parse_array ft value s ≡ some (xs, rest)
      → length rest ≤ length s
  unfolding parse_array
  parse_array-length s e = elim (Bytes-cases (skip_ws s)) [
    | inl ended ↦ absurd (cc (rw (ended, parse_array) at e))
    | inr (c, t, begun) ↦
        let e' = rw (begun, parse_array) at e in
        let a = skip_ws-length s in
        let size = ap length begun in
        elim (Bool-cases (c == b']')) [
          | inl close ↦
              let same_rest =
                ap (λ p. length p.1) (some-injective (sym (if-true _ _ _ close) ∙ e')) in
              omega arith
          | inr more ↦
              let shorter =
                parse_items-length (suc (length (c ∷ t))) (c ∷ t)
                  (sym (if-false _ _ _ more) ∙ e') in
              omega arith
        ]
  ]

  add_member-rest :
      (k : Bytes) (v : Json) (r : Option (Members × Bytes)) {ms : Members} {rest : Bytes}
      → add_member ft k v r ≡ some (ms, rest)
      → (ns : Members) × (r ≡ some (ns, rest))
  add_member-rest k v none e = absurd (cc e)
  add_member-rest k v (some (ns, rest)) e = (ns, cc)

  pub parse_member-length :
      (s : Bytes) {k : Bytes} {v : Json} {rest : Bytes}
      → parse_member ft value s ≡ some (k, v, rest)
      → length rest ≤ length s
  unfolding parse_member
  parse_member-length s e =
      let (key, found, e1) = >>=-eq-some (parse_string (skip_ws s)) _ e in
      let (colon, found', e2) = >>=-eq-some (expect_colon ft (skip_ws key.1)) _ e1 in
      let (read, found'', e3) = >>=-eq-some (value (skip_ws colon)) _ e2 in
      let last = ap (λ p. length p.2) (some-injective e3) in
      let a = skip_ws-length s in
      let b = parse_string-length (skip_ws s) found in
      let d = skip_ws-length key.1 in
      let f = expect_colon-length ft (skip_ws key.1) found' in
      let g = skip_ws-length colon in let h = shrinks (skip_ws colon) _ _ found'' in omega arith

  -- Behind a member: a comma and more members, or the brace.
  members-rest :
      (fuel : ℕ) (k : Bytes) (v : Json) (c : ℕ) (t : Bytes) {ms : Members} {rest : Bytes}
      → (if c == b','
          then add_member ft k v (parse_members ft value fuel t)
          else if c == b'}'
          then some (member k v no_members, t)
          else none)
        ≡ some (ms, rest)
      → ((ns : Members) (r : Bytes)
          → parse_members ft value fuel t ≡ some (ns, r)
          → length r ≤ length t)
      → length rest ≤ length t
  members-rest fuel k v c t e later = elim (Bool-cases (c == b',')) [
    | inl comma ↦
        let (ns, more) =
          add_member-rest k v (parse_members ft value fuel t) (sym (if-true _ _ _ comma) ∙ e) in
        later _ _ more
    | inr last ↦
        let e' = sym (if-false _ _ _ last) ∙ e in
        elim (Bool-cases (c == b'}')) [
          | inl close ↦
              let same_rest =
                ap (λ p. length p.1) (some-injective (sym (if-true _ _ _ close) ∙ e')) in
              omega arith
          | inr wrong ↦ absurd (cc (sym (if-false _ _ _ wrong) ∙ e'))
        ]
  ]

  parse_members-length :
      (fuel : ℕ) (s : Bytes) {ms : Members} {rest : Bytes}
      → parse_members ft value fuel s ≡ some (ms, rest)
      → length rest ≤ length s
  unfolding parse_members
  parse_members-length zero s e = absurd (cc e)
  parse_members-length (suc fuel) s {ms} {rest} e = elim (Option-cases (parse_member ft value s)) [
    | inl wrong ↦ absurd (cc (rw (wrong, parse_members) at e))
    | inr (read, found) ↦ elim (Bytes-cases (skip_ws read.2)) [
      | inl ended ↦ absurd (cc (rw (found, ended, parse_members) at e))
      | inr (c, t, behind) ↦
          let shorter = parse_member-length s found in
          let b = skip_ws-length read.2 in
          let size = ap length behind in
          let e' = rw (found, behind, parse_members) at e in
          let later =
            members-rest fuel read.0 read.1 c t e'
              (λ ns r more. parse_members-length fuel t more) in
          omega arith
    ]
  ]

  pub parse_object-length :
      (s : Bytes) {ms : Members} {rest : Bytes}
      → parse_object ft value s ≡ some (ms, rest)
      → length rest ≤ length s
  unfolding parse_object
  parse_object-length s e = elim (Bytes-cases (skip_ws s)) [
    | inl ended ↦ absurd (cc (rw (ended, parse_object) at e))
    | inr (c, t, begun) ↦
        let e' = rw (begun, parse_object) at e in
        let a = skip_ws-length s in
        let size = ap length begun in
        elim (Bool-cases (c == b'}')) [
          | inl close ↦
              let same_rest =
                ap (λ p. length p.1) (some-injective (sym (if-true _ _ _ close) ∙ e')) in
              omega arith
          | inr more ↦
              let shorter =
                parse_members-length (suc (length (c ∷ t))) (c ∷ t)
                  (sym (if-false _ _ _ more) ∙ e') in
              omega arith
        ]
  ]
