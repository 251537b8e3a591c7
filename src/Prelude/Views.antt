-- ===== src/Prelude/Views.antt =====
-- Byte strings, and the searches of `std::string_view`: a position found in a view is the view cut
-- there, and a loop that moves a position is a recursion on what is left of the view.
use Prim.Native.Nat.{ℕ, ◌<◌}
use Prim.Native.Char.{code}
use Prim.Native.String.{String}
use mathlib.Core.Bool.{Bool, true, false, ◌&&◌, ◌||◌}
use mathlib.Core.List.{List, [], ◌∷◌, ◌++◌}
use mathlib.Core.Option.{Option, none, some}
use vermell.Prelude.Tests.{◌==◌, if◌then◌else◌}
use vermell.Prelude.Lists.{All}

abbrev pub Bytes : Type 0
Bytes = List ℕ

-- Every element is a byte.
abbrev pub IsBytes : Bytes → Type 0
IsBytes s = All (λ c. c < 256) s

-- The bytes of a text of ASCII characters.
abbrev pub codes : String → Bytes
codes String.[] = []
codes (String.◌∷◌ c s) = code c ∷ codes s

-- `a == b` on byte strings
unfoldable pub same : Bytes → Bytes → Bool
same [] [] = true
same (x ∷ a) (y ∷ b) = x == y && same a b
same _ _ = false

abbrev pub is_empty : Bytes → Bool
is_empty [] = true
is_empty (_ ∷ _) = false

-- `s.starts_with(pat)`, with what follows
unfoldable pub strip_prefix : Bytes → Bytes → Option Bytes
strip_prefix [] s = some s
strip_prefix (p ∷ ps) [] = none
strip_prefix (p ∷ ps) (c ∷ s) = if p == c then strip_prefix ps s else none

abbrev pub is_some {ℓ} : {A : Type ℓ} → Option A → Bool
is_some none = false
is_some (some _) = true

-- `s.find(c) != npos`
unfoldable pub has_byte : ℕ → Bytes → Bool
has_byte c [] = false
has_byte c (x ∷ s) = x == c || has_byte c s

abbrev pub push_front : ℕ → Option (Bytes × Bytes) → Option (Bytes × Bytes)
push_front c none = none
push_front c (some (before, after)) = some (c ∷ before, after)

-- `s.find(c)`: what stands before the first `c`, and what stands after it
unfoldable pub cut : ℕ → Bytes → Option (Bytes × Bytes)
cut c [] = none
cut c (x ∷ s) = if x == c then some ([], s) else push_front x (cut c s)

-- `s.find(pat)` for a pattern that is not empty
unfoldable pub cut_seq : Bytes → Bytes → Option (Bytes × Bytes)
unfolding strip_prefix
cut_seq pat [] = none
cut_seq pat (x ∷ s) = elim (strip_prefix pat (x ∷ s)) [
  | some after ↦ some ([], after)
  | none ↦ push_front x (cut_seq pat s)
]

abbrev pub cons_head : ℕ → List Bytes → List Bytes
cons_head c [] = (c ∷ []) ∷ []
cons_head c (x ∷ xs) = (c ∷ x) ∷ xs

-- The segments of `s` between the bytes `c`, empty ones too; the one of an empty view is empty.
unfoldable pub split_on : ℕ → Bytes → List Bytes
split_on c [] = [] ∷ []
split_on c (x ∷ s) = let rest = split_on c s in if x == c then [] ∷ rest else cons_head x rest

-- The segments of a loop `while (pos < size)`: an empty last segment is not visited.
unfoldable pub lines_of : ℕ → Bytes → List Bytes
lines_of c [] = []
lines_of c (x ∷ []) = if x == c then [] ∷ [] else (x ∷ []) ∷ []
lines_of c (x ∷ y ∷ s) =
    let rest = lines_of c (y ∷ s) in if x == c then [] ∷ rest else cons_head x rest

-- `s` without the leading bytes that pass the test
unfoldable pub drop_while : (ℕ → Bool) → Bytes → Bytes
drop_while p [] = []
drop_while p (c ∷ s) = if p c then drop_while p s else c ∷ s

-- `s` without the trailing bytes that pass the test
unfoldable pub drop_while_end : (ℕ → Bool) → Bytes → Bytes
drop_while_end p [] = []
drop_while_end p (c ∷ s) =
    let rest = drop_while_end p s in if p c && is_empty rest then [] else c ∷ rest

-- `join` of the segments with the byte between them
unfoldable pub join_with : ℕ → List Bytes → Bytes
join_with c [] = []
join_with c (x ∷ []) = x
join_with c (x ∷ y ∷ xs) = x ++ c ∷ join_with c (y ∷ xs)
