-- ===== src/Json/RoundTrip.antt =====
-- `Json::parse` reads what `Json::dump` prints (include/vermell/util/json.hpp).
use vermell.Json.{
  ℤ, Json, null, bool, int, double, string, array, object, Items, no_items, item, Members,
  no_members, member, FloatText, is_finite, escape_string, dump, dump_items, dump_members,
  dump_double,
}
use vermell.Json.Numbers.{starts_number, print-head, parse_number-print}
use vermell.Json.Parser.{
  skip_ws, scan_number, number_value, real_value, parse_number, parse_value, parse,
}
use vermell.Json.Strings.{parse_string-escape_string}
use vermell.Params.Numbers.{IsSigned}
use vermell.Prelude.{
  ℕ, zero, suc, ◌≤◌, max, ◌≡◌, refl, ◌∙◌, Bool, true, false, some, [], ◌∷◌, ◌++◌, append-nil,
  append_assoc, arith, Bytes, strip_prefix, drop_while,
}
use vermell.Json.Texts.{
  IsReadable, IsPrintable, ArePrintable, HasPrintable, dump-Begins, skip_ws-Begins,
}
use vermell.Json.Loops.{Reads, ReadsItems, ReadsMembers, parse_array-dump, parse_object-dump}

unfoldable mutual
  pub depth : Json → ℕ
  depth (array xs) = suc (depth_items xs)
  depth (object ms) = suc (depth_members ms)
  depth null = 1
  depth (bool b) = 1
  depth (int z) = 1
  depth (double d) = 1
  depth (string s) = 1

  pub depth_items : Items → ℕ
  depth_items no_items = 0
  depth_items (item x xs) = max (depth x) (depth_items xs)

  pub depth_members : Members → ℕ
  depth_members no_members = 0
  depth_members (member key x ms) = max (depth x) (depth_members ms)

-- The first byte of a number leads to the parser of numbers.
parse_value-number :
    (ft : FloatText) (levels c : ℕ) (s : Bytes)
    → starts_number c ≡ true
    → parse_value ft (suc levels) (c ∷ s) ≡ parse_number ft (c ∷ s)
unfolding parse_value
parse_value-number ft levels c s h = ground arith

parse_number-real :
    (ft : FloatText) (d : ℕ) (text rest : Bytes)
    → scan_number (text ++ rest) ≡ some (text, true, rest)
    → ft.from_chars text ≡ some d
    → is_finite d ≡ true
    → parse_number ft (text ++ rest) ≡ some (double d, rest)
unfolding parse_number number_value real_value
parse_number-real ft d text rest token back finite =
    rw (token, number_value, real_value, back, finite) refl

parse_value-double :
    (ft : FloatText) (levels d : ℕ)
    → IsReadable ft d
    → Reads (parse_value ft (suc levels)) ft (double d)
unfolding dump dump_double
parse_value-double ft levels d h rest ends =
    let number = parse_number-real ft d h.text rest (h.token rest ends) h.back h.finite in
    rw (dump_double, h.printed, h.finite, h.begins)
      (parse_value-number ft levels h.first (h.others ++ rest) h.starts ∙ (rw h.begins at number))

parse_value-int :
    (ft : FloatText) (levels : ℕ) (z : ℤ)
    → IsSigned 64 z
    → Reads (parse_value ft (suc levels)) ft (int z)
unfolding dump
parse_value-int ft levels z signed rest ends =
    let (c, t, e, starts) = print-head z in
    let number = parse_number-print ft z rest signed ends in
    rw e (parse_value-number ft levels c (t ++ rest) starts ∙ (rw e at number))

parse_value-string :
    (ft : FloatText) (levels : ℕ) (s : Bytes) → Reads (parse_value ft (suc levels)) ft (string s)
unfolding dump parse_value escape_string
parse_value-string ft levels s rest _ = rw (parse_string-escape_string s rest) refl

parse_value-null : (ft : FloatText) (levels : ℕ) → Reads (parse_value ft (suc levels)) ft null
unfolding dump parse_value strip_prefix
parse_value-null ft levels rest _ = refl

parse_value-bool :
    (ft : FloatText) (levels : ℕ) (b : Bool) → Reads (parse_value ft (suc levels)) ft (bool b)
unfolding dump parse_value strip_prefix
parse_value-bool ft levels true rest _ = refl
parse_value-bool ft levels false rest _ = refl

parse_value-array :
    (ft : FloatText) (levels : ℕ) (xs : Items)
    → ReadsItems ft (parse_value ft levels) xs
    → Reads (parse_value ft (suc levels)) ft (array xs)
unfolding dump parse_value
parse_value-array ft levels xs reads rest _ =
    rw
      (
        append_assoc (dump_items ft true xs) (b']' ∷ []) rest,
        parse_array-dump ft (parse_value ft levels) xs rest reads,
      )
      refl

parse_value-object :
    (ft : FloatText) (levels : ℕ) (ms : Members)
    → ReadsMembers ft (parse_value ft levels) ms
    → Reads (parse_value ft (suc levels)) ft (object ms)
unfolding dump parse_value
parse_value-object ft levels ms reads rest _ =
    rw
      (
        append_assoc (dump_members ft true ms) (b'}' ∷ []) rest,
        parse_object-dump ft (parse_value ft levels) ms rest reads,
      )
      refl

depth-positive : (v : Json) → 1 ≤ depth v
unfolding depth
depth-positive null = omega arith
depth-positive (bool b) = omega arith
depth-positive (int z) = omega arith
depth-positive (double d) = omega arith
depth-positive (string s) = omega arith
depth-positive (array xs) = omega arith
depth-positive (object ms) = omega arith

mutual
  unfolding depth

  parse_value-dump :
      (ft : FloatText) (v : Json) (levels : ℕ)
      → depth v ≤ levels
      → IsPrintable ft v
      → Reads (parse_value ft levels) ft v
  parse_value-dump ft v zero le _ = absurd (omega (arith, depth-positive v))
  parse_value-dump ft null (suc levels) le _ = parse_value-null ft levels
  parse_value-dump ft (bool b) (suc levels) le _ = parse_value-bool ft levels b
  parse_value-dump ft (int z) (suc levels) le h = parse_value-int ft levels z h
  parse_value-dump ft (double d) (suc levels) le h = parse_value-double ft levels d h
  parse_value-dump ft (string s) (suc levels) le _ = parse_value-string ft levels s
  parse_value-dump ft (array xs) (suc levels) le h =
      parse_value-array ft levels xs (items-dump ft xs levels (omega arith) h)
  parse_value-dump ft (object ms) (suc levels) le h =
      parse_value-object ft levels ms (members-dump ft ms levels (omega arith) h)

  items-dump :
      (ft : FloatText) (xs : Items) (levels : ℕ)
      → depth_items xs ≤ levels
      → ArePrintable ft xs
      → ReadsItems ft (parse_value ft levels) xs
  items-dump ft no_items levels le h = tt
  items-dump ft (item x xs) levels le (h, more) = (
    parse_value-dump ft x levels (omega arith) h,
    dump-Begins ft x h,
    items-dump ft xs levels (omega arith) more,
  )

  members-dump :
      (ft : FloatText) (ms : Members) (levels : ℕ)
      → depth_members ms ≤ levels
      → HasPrintable ft ms
      → ReadsMembers ft (parse_value ft levels) ms
  members-dump ft no_members levels le h = tt
  members-dump ft (member key x ms) levels le (h, more) = (
    parse_value-dump ft x levels (omega arith) h,
    dump-Begins ft x h,
    members-dump ft ms levels (omega arith) more,
  )

-- A value of at most 257 levels whose integers fit in 64 bits and whose doubles are finite with a
-- text that is read back is what `parse` reads from its printed text.
pub parse-dump :
    (ft : FloatText) (v : Json) → IsPrintable ft v → depth v ≤ 257 → parse ft (dump ft v) ≡ some v
unfolding parse skip_ws drop_while
parse-dump ft v h le =
    let read = parse_value-dump ft v 257 le h [] refl in
    let whole = append-nil (dump ft v) in
    let trimmed = rw whole at (skip_ws-Begins (dump ft v) [] (dump-Begins ft v h)) in
    rw (trimmed, rw whole at read, skip_ws) refl
