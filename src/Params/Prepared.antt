-- ===== src/Params/Prepared.antt =====
-- `utility_t::prepare` of include/vermell/request/parameters.hpp: no input breaks the response's head.
use vermell.Params.{apply_line, apply_lines, apply_headers, prepared, prepare, drop_cr, drop_space}
use vermell.Http.Response.{Response, new_response, status}
use vermell.Http.Response.Headers.{IsWellFormed, set-IsWellFormed}
use vermell.Http.Response.Wire.{head_lines, with_cr, split_on-head}
use vermell.Prelude.{
  ℕ, ◌≡◌, refl, inl, inr, List, [], ◌∷◌, ◌++◌, map, Option-cases, Bytes, codes, cut, split_on,
  lines_of,
}

apply_line-IsWellFormed :
    (line : Bytes) (r : Response) → IsWellFormed r → IsWellFormed (apply_line line r)
apply_line-IsWellFormed line r safe = elim (Option-cases (cut b':' line)) [
  | inl missing ↦ rw (missing, apply_line) safe
  | inr (([], value), found) ↦ rw (found, apply_line) safe
  | inr ((c ∷ name, value), found) ↦
      rw (found, apply_line) (set-IsWellFormed (c ∷ name) (drop_cr (drop_space value)) r safe)
]

apply_lines-IsWellFormed :
    (lines : List Bytes) (r : Response) → IsWellFormed r → IsWellFormed (apply_lines lines r)
unfolding apply_lines
apply_lines-IsWellFormed [] r safe = safe
apply_lines-IsWellFormed (line ∷ lines) r safe =
    apply_lines-IsWellFormed lines (apply_line line r) (apply_line-IsWellFormed line r safe)

prepared-IsWellFormed :
    (body type headers : Bytes) (code : ℕ) → IsWellFormed (prepared body type headers code)
unfolding prepared apply_headers
prepared-IsWellFormed body type headers code =
    let typed =
      set-IsWellFormed (codes "Content-Type") type (status code new_response)
        (record { clean = tt; distinct = tt }) in
    let applied = apply_lines-IsWellFormed (lines_of b'\n' headers) _ typed in
    record { clean = applied.clean; distinct = applied.distinct }

-- Whatever the body, the type, the raw header block and the status are: the lines of the head that
-- `prepare` writes are those of its response, each ended by a CR, with an empty one at the end; and
-- what follows the head is the body.
pub split_on-prepare :
    (body type headers : Bytes) (code : ℕ)
    → (split_on b'\n' (prepare body type headers code).head
        ≡ map with_cr (head_lines (prepared body type headers code)) ++ (b'\r' ∷ []) ∷ [] ∷ [])
      × ((prepare body type headers code).body ≡ body)
unfolding prepare
split_on-prepare body type headers code = (
  split_on-head (prepared body type headers code) (prepared-IsWellFormed body type headers code),
  unfold prepared in refl,
)
