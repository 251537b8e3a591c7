-- ===== src/Prelude/Decimal.antt =====
-- Decimal numbers: `std::to_chars`, `std::to_string` and `std::from_chars` on unsigned integers.
use vermell.Prelude.Tests.{ltb, within, if◌then◌else◌, Bool-cases}
use vermell.Prelude.Lists.{All, All-append}
use vermell.Prelude.Views.{Bytes}
use Prim.Native.Nat.{ℕ, zero, suc, ◌+◌, ◌-◌, ◌*◌, ◌/◌, ◌%◌, ◌<◌}
use mathlib.Core.Path.{◌≡◌, refl, ◌∙◌}
use mathlib.Core.Logic.{inl, inr}
use mathlib.Core.Bool.{Bool, true}
use mathlib.Core.Option.{Option, none, some}
use mathlib.Core.List.{[], ◌∷◌, ◌++◌}
use native.Mathlib.Omega.{arith}

-- The digits of a number below `10 ^ fuel`, the most significant first.
unfoldable pub digits_on : ℕ → ℕ → Bytes
digits_on zero n = []
digits_on (suc fuel) n =
    let more = digits_on fuel (n / 10) ++ (b'0' + n % 10) ∷ [] in
    if ltb n 10 then (b'0' + n) ∷ [] else more

-- Fuel is never short: a number is below ten to its successor.
unfoldable pub decimal : ℕ → Bytes
unfolding digits_on
decimal n = digits_on (suc n) n

abbrev pub is_digit : ℕ → Bool
is_digit c = within b'0' b'9' c

-- The value of a text of digits that follows digits of value `acc`; `none` at any other byte.
unfoldable pub read_digits : ℕ → Bytes → Option ℕ
read_digits acc [] = some acc
read_digits acc (c ∷ s) =
    let rest = read_digits (acc * 10 + (c - b'0')) s in if is_digit c then rest else none

-- A whole text as an unsigned number below `limit`: no digit, junk behind the digits and a value
-- out of range are `none`.
unfoldable pub parse_decimal : ℕ → Bytes → Option ℕ
unfolding read_digits
parse_decimal limit [] = none
parse_decimal limit (c ∷ s) = elim (read_digits 0 (c ∷ s)) [
  | none ↦ none
  | some n ↦ if ltb n limit then some n else none
]

pub read_digits-append :
    (acc : ℕ) (s t : Bytes) {n : ℕ}
    → read_digits acc s ≡ some n
    → read_digits acc (s ++ t) ≡ read_digits n t
unfolding read_digits
read_digits-append acc [] t h = ground arith
read_digits-append acc (c ∷ s) t {n} h = elim (Bool-cases (is_digit c)) [
  | inl e ↦ ground (arith, read_digits-append (acc * 10 + (c - b'0')) s t {n = n})
  | inr ne ↦ ground arith
]

read_digits-digits_on : (fuel n : ℕ) → n < fuel → read_digits 0 (digits_on fuel n) ≡ some n
unfolding digits_on
read_digits-digits_on zero n h = absurd (omega arith)
read_digits-digits_on (suc fuel) n h = elim (Bool-cases (ltb n 10)) [
  | inl small ↦ rw small (unfold read_digits in ground arith)
  | inr big ↦ rw big (
      read_digits-append 0 (digits_on fuel (n / 10)) _ {n = n / 10}
        (read_digits-digits_on fuel (n / 10) (ground arith))
      ∙ unfold read_digits in ground arith)
]

digits_on-cons : (fuel n : ℕ) → (c : ℕ) × (s : Bytes) × (digits_on (suc fuel) n ≡ c ∷ s)
unfolding digits_on
digits_on-cons fuel n = elim (Bool-cases (ltb n 10)) [
  | inl small ↦ rw small (_, _, refl)
  | inr big ↦ rw big (append_cons (digits_on fuel (n / 10)) _)
]
  where
    append_cons : (s : Bytes) (d : ℕ) → (c : ℕ) × (r : Bytes) × (s ++ d ∷ [] ≡ c ∷ r)
    append_cons [] d = (d, [], refl)
    append_cons (x ∷ s) d = (x, s ++ d ∷ [], refl)

-- Reading a printed number gives it back.
pub parse_decimal-decimal : (limit n : ℕ) → n < limit → parse_decimal limit (decimal n) ≡ some n
unfolding parse_decimal decimal
parse_decimal-decimal limit n h =
    let (c, s, e) = digits_on-cons n n in
    let r = read_digits-digits_on (suc n) n (omega arith) in ground (arith, e, r)

-- A printed number is made of digits.
pub digits_on-is_digit : (fuel n : ℕ) → All (λ c. is_digit c ≡ true) (digits_on fuel n)
unfolding digits_on
digits_on-is_digit zero n = tt
digits_on-is_digit (suc fuel) n = elim (Bool-cases (ltb n 10)) [
  | inl small ↦ rw small (ground arith, tt)
  | inr big ↦ rw big (
      All-append (λ c. is_digit c ≡ true) (digits_on fuel (n / 10)) ((b'0' + n % 10) ∷ [])
        (digits_on-is_digit fuel (n / 10)) (ground arith, tt))
]

pub parse_decimal_bound :
    (limit : ℕ) (s : Bytes) {n : ℕ} → parse_decimal limit s ≡ some n → n < limit
unfolding parse_decimal
parse_decimal_bound limit [] h = cc
parse_decimal_bound limit (c ∷ s) h = ground arith
