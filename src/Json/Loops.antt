-- ===== src/Json/Loops.antt =====
-- The loops of `parse_array` and `parse_object` on printed containers
-- (include/vermell/util/json.hpp).
use vermell.Json.{
  Json, Items, no_items, item, Members, no_members, member, FloatText, escape_string, dump,
  dump_items, dump_members, length_items, length_members,
}
use vermell.Json.Numbers.{ends_number}
use vermell.Json.Parser.{
  skip_ws, add_item, add_member, parse_items, parse_array, parse_member, parse_members,
  parse_object,
}
use vermell.Json.Strings.{parse_string-escape_string}
use vermell.Params.{json_escape}
use vermell.Prelude.{
  ℕ, zero, suc, ◌≤◌, ◌<◌, ◌≡◌, refl, ap, ◌∙◌, true, false, Option, some, [], ◌∷◌, ◌++◌,
  append_assoc, arith, ◌==◌, Bytes, length, length-append,
}
use vermell.Json.Texts.{Begins, skip_ws-cons, skip_ws-Begins}

-- A parser of values reads the text of this one off the front of what ends a number.
abbrev pub Reads : (Bytes → Option (Json × Bytes)) → FloatText → Json → Type 0
Reads value ft v =
    (rest : Bytes) → ends_number rest ≡ true → value (dump ft v ++ rest) ≡ some (v, rest)

module _ (ft : FloatText) (value : Bytes → Option (Json × Bytes)) where
  abbrev pub ReadsItems : Items → Type 0
  ReadsItems no_items = Unit
  ReadsItems (item x xs) = Reads value ft x × Begins (dump ft x) × ReadsItems xs

  abbrev pub ReadsMembers : Members → Type 0
  ReadsMembers no_members = Unit
  ReadsMembers (member key x ms) = Reads value ft x × Begins (dump ft x) × ReadsMembers ms

  parse_items-last :
      (fuel : ℕ) (x : Json) (rest : Bytes)
      → Reads value ft x
      → Begins (dump ft x)
      → parse_items ft value (suc fuel) (dump ft x ++ b']' ∷ rest) ≡ some (item x no_items, rest)
  unfolding parse_items
  parse_items-last fuel x rest reads begins =
      rw
        (
          parse_items,
          skip_ws-Begins (dump ft x) (b']' ∷ rest) begins,
          reads (b']' ∷ rest) refl,
          skip_ws-cons b']' rest refl,
        )
        refl

  parse_items-more :
      (fuel : ℕ) (x : Json) (s : Bytes)
      → Reads value ft x
      → Begins (dump ft x)
      → parse_items ft value (suc fuel) (dump ft x ++ b',' ∷ s)
        ≡ add_item ft x (parse_items ft value fuel s)
  unfolding parse_items
  parse_items-more fuel x s reads begins =
      rw
        (
          parse_items,
          skip_ws-Begins (dump ft x) (b',' ∷ s) begins,
          reads (b',' ∷ s) refl,
          skip_ws-cons b',' s refl,
        )
        refl

  parse_items-dump :
      (fuel : ℕ) (x : Json) (xs : Items) (rest : Bytes)
      → Reads value ft x
      → Begins (dump ft x)
      → ReadsItems xs
      → length_items xs < fuel
      → parse_items ft value fuel (dump ft x ++ (dump_items ft false xs ++ b']' ∷ rest))
        ≡ some (item x xs, rest)
  unfolding dump length_items
  parse_items-dump zero x xs rest reads begins more lt = absurd (omega arith)
  parse_items-dump (suc fuel) x no_items rest reads begins more lt =
      parse_items-last fuel x rest reads begins
  parse_items-dump (suc fuel) x (item y ys) rest reads begins (reads', begins', more) lt =
      parse_items-more fuel x _ reads begins
      ∙ ap (λ s. add_item ft x (parse_items ft value fuel s))
          (append_assoc (dump ft y) (dump_items ft false ys) (b']' ∷ rest))
      ∙ ap (add_item ft x) (parse_items-dump fuel y ys rest reads' begins' more (omega arith))

  pub skip_ws-escape_string :
      (key s : Bytes) → skip_ws (escape_string key ++ s) ≡ escape_string key ++ s
  unfolding escape_string
  skip_ws-escape_string key s = skip_ws-cons b'"' _ refl

  parse_member-dump :
      (key : Bytes) (x : Json) (s : Bytes)
      → Reads value ft x
      → Begins (dump ft x)
      → ends_number s ≡ true
      → parse_member ft value (escape_string key ++ (b':' ∷ (dump ft x ++ s))) ≡ some (key, x, s)
  unfolding parse_member
  parse_member-dump key x s reads begins ends =
      rw
        (
          parse_member,
          skip_ws-escape_string key (b':' ∷ (dump ft x ++ s)),
          parse_string-escape_string key (b':' ∷ (dump ft x ++ s)),
          skip_ws-cons b':' (dump ft x ++ s) refl,
          skip_ws-Begins (dump ft x) s begins,
          reads s ends,
        )
        refl

  parse_members-last :
      (fuel : ℕ) (key : Bytes) (x : Json) (rest : Bytes)
      → Reads value ft x
      → Begins (dump ft x)
      → parse_members ft value (suc fuel) (escape_string key ++ (b':' ∷ (dump ft x ++ b'}' ∷ rest)))
        ≡ some (member key x no_members, rest)
  unfolding parse_members
  parse_members-last fuel key x rest reads begins =
      rw
        (
          parse_members,
          parse_member-dump key x (b'}' ∷ rest) reads begins refl,
          skip_ws-cons b'}' rest refl,
        )
        refl

  parse_members-more :
      (fuel : ℕ) (key : Bytes) (x : Json) (s : Bytes)
      → Reads value ft x
      → Begins (dump ft x)
      → parse_members ft value (suc fuel) (escape_string key ++ (b':' ∷ (dump ft x ++ b',' ∷ s)))
        ≡ add_member ft key x (parse_members ft value fuel s)
  unfolding parse_members
  parse_members-more fuel key x s reads begins =
      rw
        (
          parse_members,
          parse_member-dump key x (b',' ∷ s) reads begins refl,
          skip_ws-cons b',' s refl,
        )
        refl

  -- The text of a member with what follows it, bracketed to the right.
  member_append :
      (key : Bytes) (x : Json) (ms : Members) (s : Bytes)
      → (escape_string key ++ (b':' ∷ (dump ft x ++ dump_members ft false ms))) ++ s
        ≡ escape_string key ++ (b':' ∷ (dump ft x ++ (dump_members ft false ms ++ s)))
  member_append key x ms s =
      append_assoc (escape_string key) (b':' ∷ (dump ft x ++ dump_members ft false ms)) s
      ∙ ap (λ t. escape_string key ++ b':' ∷ t)
          (append_assoc (dump ft x) (dump_members ft false ms) s)

  parse_members-dump :
      (fuel : ℕ) (key : Bytes) (x : Json) (ms : Members) (rest : Bytes)
      → Reads value ft x
      → Begins (dump ft x)
      → ReadsMembers ms
      → length_members ms < fuel
      → parse_members ft value fuel
          (escape_string key ++ (b':' ∷ (dump ft x ++ (dump_members ft false ms ++ b'}' ∷ rest))))
        ≡ some (member key x ms, rest)
  unfolding dump length_members
  parse_members-dump zero key x ms rest reads begins more lt = absurd (omega arith)
  parse_members-dump (suc fuel) key x no_members rest reads begins more lt =
      parse_members-last fuel key x rest reads begins
  parse_members-dump (suc fuel) key x (member k y ms) rest reads begins (reads', begins', more) lt =
      parse_members-more fuel key x _ reads begins
      ∙ ap (λ s. add_member ft key x (parse_members ft value fuel s))
          (member_append k y ms (b'}' ∷ rest))
      ∙ ap (add_member ft key x)
          (parse_members-dump fuel k y ms rest reads' begins' more (omega arith))

  length_items-dump : (xs : Items) → length_items xs ≤ length (dump_items ft false xs)
  unfolding dump length_items
  length_items-dump no_items = omega arith
  length_items-dump (item x xs) =
      omega (arith, length-append (dump ft x) (dump_items ft false xs), length_items-dump xs)

  length_members-dump : (ms : Members) → length_members ms ≤ length (dump_members ft false ms)
  unfolding dump length_members
  length_members-dump no_members = omega arith
  length_members-dump (member key x ms) = omega (
    arith,
    length-append (escape_string key) (b':' ∷ (dump ft x ++ dump_members ft false ms)),
    length-append (dump ft x) (dump_members ft false ms),
    length_members-dump ms,
  )

  -- A loop that is entered at a text which begins neither with white space nor with a bracket.
  parse_array-loop :
      (s : Bytes) → Begins s → parse_array ft value s ≡ parse_items ft value (suc (length s)) s
  unfolding parse_array
  parse_array-loop s (c, t, e, h) =
      let other : (c == b']') ≡ false = ground arith in
      rw (e, parse_array, skip_ws-cons c t (ground arith), other) refl

  parse_array-nil : (rest : Bytes) → parse_array ft value (b']' ∷ rest) ≡ some (no_items, rest)
  unfolding parse_array
  parse_array-nil rest = rw (parse_array, skip_ws-cons b']' rest refl) refl

  parse_object-nil : (rest : Bytes) → parse_object ft value (b'}' ∷ rest) ≡ some (no_members, rest)
  unfolding parse_object
  parse_object-nil rest = rw (parse_object, skip_ws-cons b'}' rest refl) refl

  pub parse_object-loop :
      (key s : Bytes)
      → parse_object ft value (escape_string key ++ s)
        ≡ parse_members ft value (suc (length (escape_string key ++ s))) (escape_string key ++ s)
  unfolding parse_object escape_string
  parse_object-loop key s =
      rw (parse_object, skip_ws-cons b'"' ((json_escape key ++ b'"' ∷ []) ++ s) refl) refl

  pub parse_array-dump :
      (xs : Items) (rest : Bytes)
      → ReadsItems xs
      → parse_array ft value (dump_items ft true xs ++ b']' ∷ rest) ≡ some (xs, rest)
  unfolding dump
  parse_array-dump no_items rest _ = parse_array-nil rest
  parse_array-dump (item x xs) rest (reads, begins, more) =
      let whole = append_assoc (dump ft x) (dump_items ft false xs) (b']' ∷ rest) in
      let text = dump ft x ++ (dump_items ft false xs ++ b']' ∷ rest) in
      let (c, t, e, h) = begins in
      ap (parse_array ft value) whole
      ∙ parse_array-loop text (
        c,
        t ++ (dump_items ft false xs ++ b']' ∷ rest),
        ap (λ s. s ++ (dump_items ft false xs ++ b']' ∷ rest)) e,
        h,
      )
      ∙ parse_items-dump (suc (length text)) x xs rest reads begins more (
          omega (
            arith,
            length_items-dump xs,
            length-append (dump ft x) (dump_items ft false xs ++ b']' ∷ rest),
            length-append (dump_items ft false xs) (b']' ∷ rest),
          ))

  pub parse_object-dump :
      (ms : Members) (rest : Bytes)
      → ReadsMembers ms
      → parse_object ft value (dump_members ft true ms ++ b'}' ∷ rest) ≡ some (ms, rest)
  unfolding dump
  parse_object-dump no_members rest _ = parse_object-nil rest
  parse_object-dump (member key x ms) rest (reads, begins, more) =
      let text =
        escape_string key ++ (b':' ∷ (dump ft x ++ (dump_members ft false ms ++ b'}' ∷ rest))) in
      ap (parse_object ft value) (member_append key x ms (b'}' ∷ rest))
      ∙ parse_object-loop key (b':' ∷ (dump ft x ++ (dump_members ft false ms ++ b'}' ∷ rest)))
      ∙ parse_members-dump (suc (length text)) key x ms rest reads begins more (
          omega (
            arith,
            length_members-dump ms,
            length-append (escape_string key)
                (b':' ∷ (dump ft x ++ (dump_members ft false ms ++ b'}' ∷ rest))),
            length-append (dump ft x) (dump_members ft false ms ++ b'}' ∷ rest),
            length-append (dump_members ft false ms) (b'}' ∷ rest),
          ))
