-- ===== src/Json/Texts.antt =====
-- What the texts that `dump_to` prints begin with, and which values it prints for a reader
-- (include/vermell/util/json.hpp).
use vermell.Json.{
  Json, null, bool, int, double, string, array, object, Items, no_items, item, Members, no_members,
  member, FloatText, is_finite, dump, dump_double,
}
use vermell.Json.Numbers.{ends_number, starts_number, print-head}
use vermell.Json.Parser.{is_space, skip_ws, scan_number}
use vermell.Params.Numbers.{IsSigned}
use vermell.Prelude.{
  ℕ, ◌≡◌, refl, Bool, true, false, not, ◌||◌, some, ◌∷◌, ◌++◌, arith, ◌==◌, Bytes, drop_while,
}

-- A finite double with a text that is the token of a real number, wherever it stands, and that
-- `std::from_chars` reads back.
pub record IsReadable (ft : FloatText) (d : ℕ) : Type 0 where
  pub text : Bytes
  pub finite : is_finite d ≡ true
  pub printed : ft.to_chars d ≡ some text
  pub token :
      (rest : Bytes)
      → ends_number rest ≡ true
      → scan_number (text ++ rest) ≡ some (text, true, rest)
  pub back : ft.from_chars text ≡ some d
  pub first : ℕ
  pub others : Bytes
  pub begins : text ≡ first ∷ others
  pub starts : starts_number first ≡ true

-- Integers of 64 bits and readable doubles throughout.
abbrev mutual
  pub IsPrintable : FloatText → Json → Type 0
  IsPrintable ft (int z) = IsSigned 64 z
  IsPrintable ft (double d) = IsReadable ft d
  IsPrintable ft (array xs) = ArePrintable ft xs
  IsPrintable ft (object ms) = HasPrintable ft ms
  IsPrintable ft null = Unit
  IsPrintable ft (bool b) = Unit
  IsPrintable ft (string s) = Unit

  pub ArePrintable : FloatText → Items → Type 0
  ArePrintable ft no_items = Unit
  ArePrintable ft (item x xs) = IsPrintable ft x × ArePrintable ft xs

  pub HasPrintable : FloatText → Members → Type 0
  HasPrintable ft no_members = Unit
  HasPrintable ft (member key x ms) = IsPrintable ft x × HasPrintable ft ms

-- A byte that a value begins with: no white space, and no closing bracket.
abbrev pub starts_value : ℕ → Bool
starts_value c = not (is_space c || c == b']' || c == b'}')

abbrev pub Begins : Bytes → Type 0
Begins s = (c : ℕ) × (t : Bytes) × (s ≡ c ∷ t) × (starts_value c ≡ true)

pub dump-Begins : (ft : FloatText) (v : Json) → IsPrintable ft v → Begins (dump ft v)
unfolding dump
dump-Begins ft null _ = (_, _, refl, refl)
dump-Begins ft (bool true) _ = (_, _, refl, refl)
dump-Begins ft (bool false) _ = (_, _, refl, refl)
dump-Begins ft (int z) _ = let (c, t, e, h) = print-head z in (c, t, e, ground arith)
dump-Begins ft (double d) h =
    (h.first, h.others, rw (dump_double, h.printed, h.finite) (h.begins), ground (arith, h.starts))
dump-Begins ft (string s) _ = (_, _, refl, refl)
dump-Begins ft (array xs) _ = (_, _, refl, refl)
dump-Begins ft (object ms) _ = (_, _, refl, refl)

pub skip_ws-cons : (c : ℕ) (s : Bytes) → is_space c ≡ false → skip_ws (c ∷ s) ≡ c ∷ s
unfolding skip_ws drop_while
skip_ws-cons c s h = rw h refl

pub skip_ws-Begins : (s rest : Bytes) → Begins s → skip_ws (s ++ rest) ≡ s ++ rest
skip_ws-Begins s rest (c, t, e, h) = rw e (skip_ws-cons c (t ++ rest) (ground arith))
