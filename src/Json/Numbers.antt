-- ===== src/Json/Numbers.antt =====
-- Numbers of include/vermell/util/json.hpp: `parse_number` reads the integers that `dump_to` prints.
use vermell.Json.{int, FloatText}
use vermell.Json.Parser.{
  span_digits, at_digit, scan_sign, scan_int, scan_frac, scan_exp, scan_number, number_value,
  parse_number,
}
use vermell.Params.{ℤ, pos, negsuc}
use vermell.Params.Numbers.{print, IsSigned, from_chars-print}
use vermell.Prelude.Decimal.{decimal, digits_on, is_digit, digits_on-is_digit}
use vermell.Prelude.{
  ℕ, zero, suc, ◌+◌, ◌/◌, ◌%◌, ◌<◌, ◌≡◌, refl, ap, ◌≢◌, inl, inr, Bool, true, false, not, ◌||◌,
  some, [], ◌∷◌, ◌++◌, append-nil, arith, ltb, ◌==◌, Bool-cases, Bytes, All,
}

-- A text that no number goes on into.
abbrev pub ends_number : Bytes → Bool
ends_number [] = true
ends_number (c ∷ _) = not (is_digit c || c == b'.' || c == b'e' || c == b'E')

pub at_digit_of_ends_number : (s : Bytes) → ends_number s ≡ true → at_digit s ≡ false
at_digit_of_ends_number [] h = refl
at_digit_of_ends_number (c ∷ s) h = ground arith

pub span_digits-end : (s : Bytes) → at_digit s ≡ false → span_digits s ≡ ([], s)
unfolding span_digits
span_digits-end [] h = refl
span_digits-end (c ∷ s) h = rw h refl

span_digits-append :
    (s rest : Bytes)
    → All (λ c. is_digit c ≡ true) s
    → at_digit rest ≡ false
    → span_digits (s ++ rest) ≡ (s, rest)
unfolding span_digits
span_digits-append [] rest _ h = span_digits-end rest h
span_digits-append (c ∷ s) rest (p, ps) h = rw (p, span_digits-append s rest ps h) refl

-- A text of a positive number does not begin with a zero.
digits_on-head :
    (fuel n : ℕ)
    → n < suc fuel
    → 0 < n
    → (c : ℕ) × (s : Bytes) × (digits_on (suc fuel) n ≡ c ∷ s) × (c ≢ b'0')
unfolding digits_on
digits_on-head zero n h k = absurd (omega arith)
digits_on-head (suc fuel) n h k = elim (Bool-cases (ltb n 10)) [
  | inl small ↦ rw small (b'0' + n, [], refl, ground arith)
  | inr big ↦
      let (c, s, e, nonzero) = digits_on-head fuel (n / 10) (ground arith) (ground arith) in
      rw big (c, s ++ (b'0' + n % 10) ∷ [], ap (λ t. t ++ (b'0' + n % 10) ∷ []) e, nonzero)
]

scan_int-cons :
    (c : ℕ) (s rest : Bytes)
    → c ≢ b'0'
    → All (λ c. is_digit c ≡ true) (c ∷ s)
    → at_digit rest ≡ false
    → scan_int (c ∷ (s ++ rest)) ≡ some (c ∷ s, rest)
unfolding scan_int
scan_int-cons c s rest nonzero digits ends =
    let other : (c == b'0') ≡ false = ground arith in
    rw (other, digits.0) (ap some (span_digits-append (c ∷ s) rest digits ends))

scan_int-decimal :
    (n : ℕ) (rest : Bytes)
    → at_digit rest ≡ false
    → scan_int (decimal n ++ rest) ≡ some (decimal n, rest)
unfolding decimal
scan_int-decimal zero rest ends = unfold digits_on scan_int in rw ends refl
scan_int-decimal (suc n) rest ends =
    let (c, s, e, nonzero) = digits_on-head (suc n) (suc n) (omega arith) (omega arith) in
    let digits = rw e at (digits_on-is_digit (suc (suc n)) (suc n)) in
    rw e (scan_int-cons c s rest nonzero digits ends)

scan_frac-end : (s : Bytes) → ends_number s ≡ true → scan_frac s ≡ some ([], s)
unfolding scan_frac
scan_frac-end [] h = refl
scan_frac-end (c ∷ s) h = ground arith

pub scan_exp-end : (s : Bytes) → ends_number s ≡ true → scan_exp s ≡ some ([], s)
unfolding scan_exp
scan_exp-end [] h = refl
scan_exp-end (c ∷ s) h = ground arith

decimal-head : (n : ℕ) → (c : ℕ) × (s : Bytes) × (decimal n ≡ c ∷ s) × (is_digit c ≡ true)
unfolding decimal
decimal-head zero = (b'0', [], unfold digits_on in refl, refl)
decimal-head (suc n) =
    let (c, s, e, _) = digits_on-head (suc n) (suc n) (omega arith) (omega arith) in
    (c, s, e, (rw e at (digits_on-is_digit (suc (suc n)) (suc n))).0)

scan_sign-decimal : (n : ℕ) (rest : Bytes) → scan_sign (decimal n ++ rest) ≡ ([], decimal n ++ rest)
scan_sign-decimal n rest =
    let (c, s, e, digit) = decimal-head n in rw e (unfold scan_sign in ground arith)

-- What stands between the sign and the rest of a number is its digits.
scan_number-unsigned :
    (sign s : Bytes) (n : ℕ) (rest : Bytes)
    → ends_number rest ≡ true
    → scan_sign s ≡ (sign, decimal n ++ rest)
    → scan_number s ≡ some (sign ++ decimal n, false, rest)
unfolding scan_number
scan_number-unsigned sign s n rest ends signed =
    rw
      (
        signed,
        scan_int-decimal n rest (at_digit_of_ends_number rest ends),
        scan_frac-end rest ends,
        scan_exp-end rest ends,
        append-nil (decimal n),
      )
      refl

scan_number-print :
    (z : ℤ) (rest : Bytes)
    → ends_number rest ≡ true
    → scan_number (print z ++ rest) ≡ some (print z, false, rest)
unfolding print
scan_number-print (pos n) rest ends =
    scan_number-unsigned [] (decimal n ++ rest) n rest ends (scan_sign-decimal n rest)
scan_number-print (negsuc n) rest ends =
    scan_number-unsigned (b'-' ∷ []) (b'-' ∷ (decimal (suc n) ++ rest)) (suc n) rest ends
      (unfold scan_sign in refl)

-- A byte that a number can begin with.
abbrev pub starts_number : ℕ → Bool
starts_number c = is_digit c || c == b'-'

pub print-head : (z : ℤ) → (c : ℕ) × (s : Bytes) × (print z ≡ c ∷ s) × (starts_number c ≡ true)
unfolding print
print-head (pos n) = let (c, s, e, digit) = decimal-head n in (c, s, e, ground arith)
print-head (negsuc n) = (b'-', decimal (suc n), refl, refl)

-- A printed 64-bit integer is read as it was, off the front of what ends it.
pub parse_number-print :
    (ft : FloatText) (z : ℤ) (rest : Bytes)
    → IsSigned 64 z
    → ends_number rest ≡ true
    → parse_number ft (print z ++ rest) ≡ some (int z, rest)
unfolding parse_number number_value
parse_number-print ft z rest signed ends =
    rw (scan_number-print z rest ends, number_value, from_chars-print 64 z signed) refl
