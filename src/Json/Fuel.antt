-- ===== src/Json/Fuel.antt =====
-- The loops of `parse_array` and `parse_object` (include/vermell/util/json.hpp) end by themselves.
use vermell.Prelude.{
  ℕ, zero, suc, ◌≤◌, ◌<◌, ◌≡◌, refl, ap, inl, inr, Bool, true, false, Option, none, some, [], ◌∷◌,
  arith, ◌==◌, if◌then◌else◌, Option-cases, strip_prefix-eq_some, Bytes, codes, strip_prefix,
  some-injective, length, length-append,
}
use vermell.Json.{Json, null, bool, Items, Members, FloatText}
use vermell.Json.Parser.{
  skip_ws, parse_items, parse_array, parse_member, parse_members, parse_object, parse_string,
  parse_literal, to_string, to_array, to_object, parse_value,
}
use vermell.Json.Consuming.{
  Shrinks, Bytes-cases, skip_ws-length, parse_array-length, parse_object-length,
  parse_member-length, parse_number-length, parse_string-length,
}

parse_literal-length : (ft : FloatText) (lit : Bytes) (v : Json) → Shrinks (parse_literal ft lit v)
parse_literal-length ft lit v s v' rest e = elim (Option-cases (strip_prefix lit s)) [
  | inl missing ↦ absurd (cc (rw (missing, parse_literal) at e))
  | inr (behind, found) ↦
      let same_rest = ap (λ p. length p.1) (some-injective (rw (found, parse_literal) at e)) in
      let size = ap length (strip_prefix-eq_some lit s found) in
      omega (arith, length-append lit behind)
]

to_string-rest :
    (ft : FloatText) (r : Option (Bytes × Bytes)) {v : Json} {rest : Bytes}
    → to_string ft r ≡ some (v, rest)
    → (t : Bytes) × (r ≡ some (t, rest))
to_string-rest ft none e = absurd (cc e)
to_string-rest ft (some (t, rest)) e = (t, cc)

to_array-rest :
    (ft : FloatText) (r : Option (Items × Bytes)) {v : Json} {rest : Bytes}
    → to_array ft r ≡ some (v, rest)
    → (xs : Items) × (r ≡ some (xs, rest))
to_array-rest ft none e = absurd (cc e)
to_array-rest ft (some (xs, rest)) e = (xs, cc)

to_object-rest :
    (ft : FloatText) (r : Option (Members × Bytes)) {v : Json} {rest : Bytes}
    → to_object ft r ≡ some (v, rest)
    → (ms : Members) × (r ≡ some (ms, rest))
to_object-rest ft none e = absurd (cc e)
to_object-rest ft (some (ms, rest)) e = (ms, cc)

-- Of two branches that leave no more than there is.
if-length :
    (b : Bool) {x y : Option (Json × Bytes)} (n : ℕ) {v : Json} {rest : Bytes}
    → (if b then x else y) ≡ some (v, rest)
    → (x ≡ some (v, rest) → length rest ≤ n)
    → (y ≡ some (v, rest) → length rest ≤ n)
    → length rest ≤ n
if-length true n e p q = p e
if-length false n e p q = q e

parse_value-Shrinks : (ft : FloatText) (levels : ℕ) → Shrinks (parse_value ft levels)
unfolding parse_value
parse_value-Shrinks ft zero s v rest e = absurd (cc e)
parse_value-Shrinks ft (suc levels) [] v rest e = parse_number-length ft [] v rest e
parse_value-Shrinks ft (suc levels) (c ∷ s) v rest e =
    let n = suc (length s) in
    let inner = parse_value-Shrinks ft levels in
    let arrays = to_array-rest ft (parse_array ft (parse_value ft levels) s) in
    let objects = to_object-rest ft (parse_object ft (parse_value ft levels) s) in
    if-length (c == b'n') n e (parse_literal-length ft (codes "null") null (c ∷ s) v rest) (λ e1.
      if-length (c == b't') n e1 (parse_literal-length ft (codes "true") (bool true) (c ∷ s) v rest)
        (λ e2.
          if-length (c == b'f') n e2
            (parse_literal-length ft (codes "false") (bool false) (c ∷ s) v rest)
            (λ e3.
              if-length (c == b'"') n e3
                (λ h. parse_string-length (c ∷ s) (to_string-rest ft (parse_string (c ∷ s)) h).1)
                (λ e4.
                  if-length (c == b'[') n e4
                    (λ h.
                      let shorter =
                        parse_array-length ft (parse_value ft levels) inner s (arrays h).1 in
                      omega arith)
                    (λ e5.
                      if-length (c == b'{') n e5
                        (λ h.
                          let shorter =
                            parse_object-length ft (parse_value ft levels) inner s (objects h).1 in
                          omega arith)
                        (parse_number-length ft (c ∷ s) v rest))))))

module _ (ft : FloatText) (value : Bytes → Option (Json × Bytes)) (shrinks : Shrinks value) where
  items_fuel :
      (fuel fuel' : ℕ) (s : Bytes)
      → length s < fuel
      → length s < fuel'
      → parse_items ft value fuel s ≡ parse_items ft value fuel' s
  unfolding parse_items
  items_fuel zero fuel' s h h' = absurd (omega arith)
  items_fuel (suc fuel) zero s h h' = absurd (omega arith)
  items_fuel (suc fuel) (suc fuel') s h h' = elim (Option-cases (value (skip_ws s))) [
    | inl wrong ↦ rw (wrong, parse_items) refl
    | inr (read, found) ↦ elim (Bytes-cases (skip_ws read.1)) [
      | inl ended ↦ rw (found, ended, parse_items) refl
      | inr (c, t, behind) ↦
          let shorter = shrinks (skip_ws s) _ _ found in
          let a = skip_ws-length s in
          let b = skip_ws-length read.1 in
          let size = ap length behind in
          let rest = items_fuel fuel fuel' t (omega arith) (omega arith) in
          rw (found, behind, parse_items, rest) refl
    ]
  ]

  members_fuel :
      (fuel fuel' : ℕ) (s : Bytes)
      → length s < fuel
      → length s < fuel'
      → parse_members ft value fuel s ≡ parse_members ft value fuel' s
  unfolding parse_members
  members_fuel zero fuel' s h h' = absurd (omega arith)
  members_fuel (suc fuel) zero s h h' = absurd (omega arith)
  members_fuel (suc fuel) (suc fuel') s h h' = elim (Option-cases (parse_member ft value s)) [
    | inl wrong ↦ rw (wrong, parse_members) refl
    | inr (read, found) ↦ elim (Bytes-cases (skip_ws read.2)) [
      | inl ended ↦ rw (found, ended, parse_members) refl
      | inr (c, t, behind) ↦
          let shorter = parse_member-length ft value shrinks s found in
          let b = skip_ws-length read.2 in
          let size = ap length behind in
          let rest = members_fuel fuel fuel' t (omega arith) (omega arith) in
          rw (found, behind, parse_members, rest) refl
    ]
  ]

-- More fuel than there are bytes changes nothing: at every level, the loops of an array and of an
-- object end by themselves.
parse_fuel :
    (ft : FloatText) (levels fuel fuel' : ℕ) (s : Bytes)
    → length s < fuel
    → length s < fuel'
    → (parse_items ft (parse_value ft levels) fuel s
        ≡ parse_items ft (parse_value ft levels) fuel' s)
      × (parse_members ft (parse_value ft levels) fuel s
          ≡ parse_members ft (parse_value ft levels) fuel' s)
parse_fuel ft levels fuel fuel' s h h' =
    let inner = parse_value-Shrinks ft levels in
    (
      items_fuel ft (parse_value ft levels) inner fuel fuel' s h h',
      members_fuel ft (parse_value ft levels) inner fuel fuel' s h h',
    )
