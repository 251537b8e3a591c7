-- ===== src/Routing/Matching.antt =====
-- What a pattern matches, as a relation.
use vermell.Http.Decode.{percent_decode}
use vermell.Routing.{star, param_name?, match_from, match_pattern}
use vermell.Prelude.{
  ◌≡◌, refl, ◌∙◌, ◌≢◌, ◌↔◌, inl, inr, none, some, List, [], ◌∷◌, ◌++◌, append-nil, append_assoc,
  arith, Bool-cases, Option-cases, same_iff, same_refl, Bytes, same, join_with,
}

-- `Matches pattern path params`: the path has the pattern's segments, the parameters are what it
-- captures, in order.
pub data Matches : List Bytes → List Bytes → List (Bytes × Bytes) → Type 0 where
  done : Matches [] [] []
  literal :
      {seg : Bytes} {pattern path : List Bytes} {params : List (Bytes × Bytes)}
      → seg ≢ star
      → param_name? seg ≡ none
      → Matches pattern path params
      → Matches (seg ∷ pattern) (seg ∷ path) params
  param :
      {seg name part : Bytes} {pattern path : List Bytes} {params : List (Bytes × Bytes)}
      → param_name? seg ≡ some name
      → Matches pattern path params
      → Matches (seg ∷ pattern) (part ∷ path) ((name, percent_decode part) ∷ params)
  rest :
      {seg : Bytes} {pattern path : List Bytes} {value : Bytes}
      → seg ≡ star
      → value ≡ percent_decode (join_with b'/' path)
      → Matches (seg ∷ pattern) path ((star, value) ∷ [])

-- All that `match_from` returns begins with what was captured before.
match_from_sound :
    (acc : List (Bytes × Bytes)) (pattern path : List Bytes) {out : List (Bytes × Bytes)}
    → match_from acc pattern path ≡ some out
    → (params : List (Bytes × Bytes)) × (out ≡ acc ++ params) × Matches pattern path params
unfolding match_from
match_from_sound acc [] [] h = ([], ground (arith, append-nil acc), done)
match_from_sound acc [] (_ ∷ _) h = cc
match_from_sound acc (seg ∷ pattern) [] h = elim (Bool-cases (same seg star)) [
  | inl e ↦ (_, ground arith, rest ((same_iff seg star).0 e) (unfold join_with in refl))
  | inr n ↦ ground arith
]
match_from_sound acc (seg ∷ pattern) (part ∷ path) {out} h = elim (Bool-cases (same seg star)) [
  | inl e ↦ (_, ground arith, rest ((same_iff seg star).0 e) refl)
  | inr n ↦ elim (Option-cases (param_name? seg)) [
    | inr (name, found) ↦
        let (ps, e, m) =
          match_from_sound (acc ++ (name, percent_decode part) ∷ []) pattern path {out = out}
            (ground arith) in
        ((name, percent_decode part) ∷ ps, e ∙ append_assoc acc _ ps, param found m)
    | inl lit ↦ elim (Bool-cases (same seg part)) [
      | inr differs ↦ ground arith
      | inl equal ↦
          let (ps, e, m) = match_from_sound acc pattern path {out = out} (ground arith) in
          (
            ps,
            e,
            rw (← (same_iff seg part).0 equal)
                (literal (λ q. ground (arith, same_iff seg star)) lit m),
          )
    ]
  ]
]

match_from_complete :
    (acc : List (Bytes × Bytes)) {pattern path : List Bytes} {params : List (Bytes × Bytes)}
    → Matches pattern path params
    → match_from acc pattern path ≡ some (acc ++ params)
unfolding match_from
match_from_complete acc done = ground (arith, append-nil acc)
match_from_complete acc (literal {seg} {pattern} {path} {params} ne lit m) =
    ground (arith, same_iff seg star, same_refl seg, match_from_complete acc m)
match_from_complete acc (param {seg} {name} {part} {pattern} {path} {params} e m) = ground (
  arith,
  e,
  same_iff seg star,
  append_assoc acc ((name, percent_decode part) ∷ []) params,
  match_from_complete (acc ++ (name, percent_decode part) ∷ []) m,
)
match_from_complete acc (rest {seg} {pattern} {path = []} e v) =
    ground (arith, same_iff seg star, v)
match_from_complete acc (rest {seg} {pattern} {path = p ∷ path} e v) =
    ground (arith, same_iff seg star, v)

-- `match_pattern` returns parameters exactly when the pattern matches with them: a literal matches
-- itself, `:name` one segment, decoded, and `*` whatever is left, joined and decoded.
pub match_pattern_iff :
    (pattern path : List Bytes) (params : List (Bytes × Bytes))
    → (match_pattern pattern path ≡ some params) ↔ Matches pattern path params
unfolding match_pattern
match_pattern_iff pattern path params =
    (λ h. let (ps, e, m) = match_from_sound [] pattern path h in rw e m, match_from_complete [])
