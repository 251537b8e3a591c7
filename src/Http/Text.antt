-- ===== src/Http/Text.antt =====
-- The text helpers of include/vermell/http/message.hpp (namespace detail). `std::tolower` and
-- `std::isdigit` are those of the "C" locale.
use vermell.Prelude.{
  ℕ, ◌+◌, ◌-◌, Bool, ◌||◌, Option, none, some, map, ◌==◌, within, if◌then◌else◌, Bytes, same,
  drop_while, drop_while_end,
}

abbrev pub ascii_lower : ℕ → ℕ
ascii_lower c = if within b'A' b'Z' c then c + 32 else c

unfoldable pub lower : Bytes → Bytes
lower = map ascii_lower

unfoldable pub iequals : Bytes → Bytes → Bool
unfolding same lower
iequals a b = same (lower a) (lower b)

abbrev pub is_ws : ℕ → Bool
is_ws c = c == b' ' || c == b'\t' || c == b'\r' || c == b'\n'

unfoldable pub trim : Bytes → Bytes
unfolding drop_while drop_while_end
trim s = drop_while_end is_ws (drop_while is_ws s)

-- -1 is `none`
unfoldable pub hex_value : ℕ → Option ℕ
hex_value c =
    if within b'0' b'9' c
    then some (c - b'0')
    else if within b'a' b'f' c
    then some (c - b'a' + 10)
    else if within b'A' b'F' c
    then some (c - b'A' + 10)
    else none
