-- ===== src/Http/Chunked/Size.antt =====
-- The size line of a chunk as a grammar (RFC 9112 §7.1), and that `chunk_size` of
-- include/vermell/http/message.hpp decides it.
use vermell.Prelude.{
  ℕ, ◌+◌, ◌-◌, ◌*◌, ◌/◌, ◌^◌, ◌≤◌, ◌<◌, ◌≡◌, refl, sym, ap, ◌∙◌, ◌≢◌, ◌↔◌, ◌⊎◌, inl, inr, Bool,
  true, false, some, [], ◌∷◌, ◌++◌, arith, ltb, ◌==◌, Bool-cases, Option-cases, if-true, if-false,
  Bytes, some-injective, any,
}
use vermell.Http.Text.{hex_value}
use vermell.Http.Chunked.{stopped, read_size, size_of, chunk_size, npos}

-- `c` is the hexadecimal digit of `d`, in either case.
abbrev pub IsHexDigit : ℕ → ℕ → Type 0
IsHexDigit c d =
    ((c ≡ b'0' + d) × (d < 10))
    ⊎ ((c + 10 ≡ b'a' + d) × (10 ≤ d) × (d < 16))
    ⊎ ((c + 10 ≡ b'A' + d) × (10 ≤ d) × (d < 16))

-- `Denotes size digits n`: the digits behind those of `size` make `n`.
abbrev pub Denotes : ℕ → Bytes → ℕ → Type 0
Denotes size [] n = size ≡ n
Denotes size (c ∷ s) n = (d : ℕ) × IsHexDigit c d × Denotes (size * 16 + d) s n

abbrev pub IsExtension : Bytes → Type 0
IsExtension s = (s ≡ []) ⊎ ((t : Bytes) × (s ≡ b';' ∷ t))

-- At least one digit, of a number that 64 bits hold, and nothing but an extension behind them.
pub record IsSize (line : Bytes) (n : ℕ) : Type 0 where
  pub digits : Bytes
  pub extension : Bytes
  pub splits : line ≡ digits ++ extension
  pub nonempty : digits ≢ []
  pub extends_by : IsExtension extension
  pub denotes : Denotes 0 digits n
  pub fits : n < 2 ^ 64

hex_value-IsHexDigit : (c : ℕ) {d : ℕ} → hex_value c ≡ some d → IsHexDigit c d
unfolding hex_value
hex_value-IsHexDigit c h = ground arith

hex_value-eq_some : (c d : ℕ) → IsHexDigit c d → hex_value c ≡ some d
unfolding hex_value
hex_value-eq_some c d h = ground arith

IsHexDigit-small : (c d : ℕ) → IsHexDigit c d → d < 16
IsHexDigit-small c d h = ground arith

Denotes-le : (size : ℕ) (s : Bytes) (n : ℕ) → Denotes size s n → size ≤ n
Denotes-le size [] n e = omega (arith, e)
Denotes-le size (c ∷ s) n (d, _, more) = let le = Denotes-le (size * 16 + d) s n more in omega arith

stopped-extension :
    (any : Bool) (size c : ℕ) (s : Bytes) {n : ℕ}
    → size_of (stopped any size (c ∷ s)) ≡ some n
    → (any ≡ true) × (c ≡ b';') × (size ≡ n)
stopped-extension false size c s h = absurd (cc h)
stopped-extension true size c s h = elim (Bool-cases (c == b';')) [
  | inl semicolon ↦ (refl, ground arith, some-injective (sym (if-true _ _ _ semicolon) ∙ h))
  | inr other ↦ absurd (cc (sym (if-false _ _ _ other) ∙ h))
]

read_size_sound :
    (any : Bool) (size : ℕ) (s : Bytes) {n : ℕ}
    → size_of (read_size any size s) ≡ some n
    → size < 2 ^ 64
    → (digits : Bytes) × (extension : Bytes) × (s ≡ digits ++ extension)
      × ((any ≡ false) → digits ≢ [])
      × IsExtension extension
      × Denotes size digits n
      × (n < 2 ^ 64)
unfolding read_size
read_size_sound false size [] h small = absurd (cc h)
read_size_sound true size [] h small = (
  [],
  [],
  refl,
  (λ e. absurd (cc e)),
  inl refl,
  some-injective h,
  omega (arith, some-injective h),
)
read_size_sound any size (c ∷ s) {n} h small = elim (Option-cases (hex_value c)) [
  | inl other ↦
      let (started, semicolon, value) =
        stopped-extension any size c s (rw (other, read_size) at h) in
      (
        [],
        c ∷ s,
        refl,
        (λ e. absurd (cc (started, e))),
        inr (s, ap (λ x. x ∷ s) semicolon),
        value,
        omega (arith, value),
      )
  | inr (d, digit) ↦ elim (Bool-cases (ltb ((npos - d) / 16) size)) [
    | inl over ↦ absurd (cc (rw (digit, over, read_size) at h))
    | inr fits ↦
        let is_digit = hex_value-IsHexDigit c digit in
        let small' : size * 16 + d < 2 ^ 64 = ground (arith, IsHexDigit-small c d is_digit) in
        let (digits, extension, e, _, ext, denotes, bound) =
          read_size_sound true (size * 16 + d) s (rw (digit, fits, read_size) at h) small' in
        (c ∷ digits, extension, ap (◌∷◌ c) e, (λ _ e'. cc), ext, (d, is_digit, denotes), bound)
  ]
]

read_size_complete :
    (any : Bool) (size : ℕ) (digits extension : Bytes) (n : ℕ)
    → (any ≡ true) ⊎ (digits ≢ [])
    → IsExtension extension
    → Denotes size digits n
    → n < 2 ^ 64
    → size_of (read_size any size (digits ++ extension)) ≡ some n
unfolding read_size hex_value
read_size_complete false size [] extension n (inl has) ext e small = absurd (cc has)
read_size_complete false size [] extension n (inr has) ext e small = absurd (has refl)
read_size_complete true size [] [] n has ext e small = ap some e
read_size_complete true size [] (c ∷ t) n has (inl ext) e small = absurd (cc ext)
read_size_complete true size [] (c ∷ t) n has (inr (t', ext)) e small = rw ext (ap some e)
read_size_complete any size (c ∷ digits) extension n has ext (d, digit, more) small =
    let found = hex_value-eq_some c d digit in
    let le = Denotes-le (size * 16 + d) digits n more in
    let fits : ltb ((npos - d) / 16) size ≡ false = ground (arith, IsHexDigit-small c d digit) in
    rw (read_size, found, fits)
      (read_size_complete true (size * 16 + d) digits extension n (inl refl) ext more small)

-- The size of a line is read exactly where the line is one of the grammar.
pub chunk_size_iff : (line : Bytes) (n : ℕ) → (chunk_size line ≡ some n) ↔ IsSize line n
unfolding chunk_size
chunk_size_iff line n = (to, from)
  where
    to : chunk_size line ≡ some n → IsSize line n
    to h =
        let (digits, extension, e, ne, ext, denotes, small) =
          read_size_sound false 0 line h (omega arith) in
        record {
          digits = digits;
          extension = extension;
          splits = e;
          nonempty = ne refl;
          extends_by = ext;
          denotes = denotes;
          fits = small;
        }

    from : IsSize line n → chunk_size line ≡ some n
    from k = rw k.splits (
        read_size_complete false 0 k.digits k.extension n (inr k.nonempty) k.extends_by k.denotes
          k.fits)
