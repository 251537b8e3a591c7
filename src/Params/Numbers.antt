-- ===== src/Params/Numbers.antt =====
-- `param_box::as` of include/vermell/request/parameters.hpp at a signed type.
use vermell.Params.{ℤ, pos, negsuc, from_chars, as_int, neg_option, pos_option, or_else}
use vermell.Prelude.Decimal.{
  parse_decimal, decimal, is_digit, parse_decimal-decimal, digits_on-is_digit,
}
use vermell.Prelude.{
  ℕ, suc, ◌+◌, ◌-◌, ◌^◌, ◌≤◌, ◌<◌, ◌≡◌, refl, ap, ◌∙◌, true, false, some, [], ◌∷◌, arith, ◌==◌,
  Bytes, All,
}

-- A number as `std::to_string` prints it.
unfoldable pub print : ℤ → Bytes
print (pos n) = decimal n
print (negsuc n) = b'-' ∷ decimal (suc n)

-- The numbers of a signed type of `w` bits.
abbrev pub IsSigned : ℕ → ℤ → Type 0
IsSigned w (pos n) = n < 2 ^ (w - 1)
IsSigned w (negsuc n) = suc n ≤ 2 ^ (w - 1)

from_chars-digits :
    (w : ℕ) (s : Bytes)
    → All (λ c. is_digit c ≡ true) s
    → from_chars w s ≡ pos_option (parse_decimal (2 ^ (w - 1)) s)
unfolding from_chars parse_decimal
from_chars-digits w [] _ = refl
from_chars-digits w (c ∷ s) (digit, _) =
    let other : (c == b'-') ≡ false = ground arith in rw other refl

pub from_chars-print : (w : ℕ) (z : ℤ) → IsSigned w z → from_chars w (print z) ≡ some z
unfolding print
from_chars-print w (pos n) h =
    from_chars-digits w (decimal n) (unfold decimal in digits_on-is_digit (suc n) n)
    ∙ ap pos_option (parse_decimal-decimal (2 ^ (w - 1)) n h)
from_chars-print w (negsuc n) h =
    unfold from_chars in
    ap neg_option (parse_decimal-decimal (2 ^ (w - 1) + 1) (suc n) (omega arith))

-- A parameter whose value is a printed number of the type reads as that number, whatever the
-- fallback is.
as_int-print :
    (w : ℕ) (fallback z : ℤ) (name : Bytes)
    → IsSigned w z
    → as_int w fallback (record { name = name; value = print z }) ≡ z
unfolding as_int
as_int-print w fallback z name h = ap (λ o. or_else o fallback) (from_chars-print w z h)
