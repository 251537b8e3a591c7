-- ===== src/Environment/Lookup.antt =====
-- What is found in the environment of sources/environment.cpp after a change.
use vermell.Prelude.{
  ◌≡◌, refl, sym, ap, ◌∙◌, inl, inr, false, Option, none, some, [], ◌∷◌, arith, if◌then◌else◌,
  Bool-cases, same_iff, Bytes, same,
}
use vermell.Environment.{Values, find_value, put_value, erase_value, Environment, get, set, unset}

-- A value that is put is found under its key, and every other key finds what it found before.
find_value-put_value :
    (key value k : Bytes) (values : Values)
    → find_value k (put_value key value values)
      ≡ (if same key k then some value else find_value k values)
unfolding find_value put_value
find_value-put_value key value k [] = refl
find_value-put_value key value k ((k', v) ∷ values) = elim (Bool-cases (same k' key)) [
  | inl here ↦
      let same_key : same k' k ≡ same key k = ap (λ t. same t k) ((same_iff k' key).0 here) in
      elim (Bool-cases (same key k)) [
        | inl found ↦ rw (here, same_key, found) refl
        | inr apart ↦ rw (here, same_key, apart) refl
      ]
  | inr other ↦
      let rest = find_value-put_value key value k values in
      elim (Bool-cases (same key k)) [
        | inl found ↦
            let apart : same k' k ≡ false =
              ap (λ t. same k' t) (sym ((same_iff key k).0 found)) ∙ other in
            rw (other, apart, rest, found) refl
        | inr apart ↦ rw (other, rest, apart) refl
      ]
]

find_value-erase_value :
    (key k : Bytes) (values : Values)
    → find_value k (erase_value key values) ≡ (if same key k then none else find_value k values)
unfolding find_value erase_value
find_value-erase_value key k [] = ground arith
find_value-erase_value key k ((k', v) ∷ values) =
    let rest = find_value-erase_value key k values in
    elim (Bool-cases (same k' key)) [
      | inl here ↦
          let same_key : same k' k ≡ same key k = ap (λ t. same t k) ((same_iff k' key).0 here) in
          elim (Bool-cases (same key k)) [
            | inl found ↦ rw (here, rest, found) refl
            | inr apart ↦ rw (here, rest, same_key, apart) refl
          ]
      | inr other ↦ elim (Bool-cases (same key k)) [
        | inl found ↦
            let apart : same k' k ≡ false =
              ap (λ t. same k' t) (sym ((same_iff key k).0 found)) ∙ other in
            rw (other, apart, rest, found) refl
        | inr apart ↦ rw (other, rest, apart) refl
      ]
    ]

-- After `set` a key has its value, whatever the process has; after `unset` it has what the process
-- has; and every other key is as it was.
get-set-unset :
    (getenv : Bytes → Option Bytes) (key value k fallback : Bytes) (env : Environment)
    → (get getenv k fallback (set key value env)
        ≡ (if same key k then value else get getenv k fallback env))
      × (get getenv k fallback (unset key env) ≡ (
          if same key k
          then get getenv k fallback (record { values = []; path = [] })
          else get getenv k fallback env))
unfolding get
get-set-unset getenv key value k fallback env =
    let put = find_value-put_value key value k env.values in
    let erased = find_value-erase_value key k env.values in
    elim (Bool-cases (same key k)) [
      | inl found ↦ (rw (put, found, get) refl, rw (erased, found, get) (unfold find_value in refl))
      | inr apart ↦ (rw (put, apart, get) refl, rw (erased, apart, get) refl)
    ]
