-- ===== src/Examples/Dispatching.antt =====
-- Routes: include/vermell/routes.hpp.
use vermell.Http.Decode.{percent_decode}
use vermell.Http.Text.{hex_value}
use vermell.Routing.{nonempty, split_path, match_from, match_pattern, star}
use vermell.Routing.Keys.{route_key_injective, join_path, split_path-join_path}
use vermell.Routing.Matching.{Matches, match_pattern_iff}
use vermell.Prelude.{
  ◌≡◌, refl, ◌↔◌, none, some, List, [], ◌∷◌, arith, Bytes, codes, same, split_on, join_with,
}

match_tests :
    (match_pattern (split_path (codes "/users/:id/*")) (split_path (codes "//users/a%20b/c/d"))
      ≡ some ((codes "id", codes "a b") ∷ (star, codes "c/d") ∷ []))
    × (match_pattern (split_path (codes "/users/:id")) (split_path (codes "/users")) ≡ none)
unfolding match_pattern match_from split_path nonempty split_on same percent_decode hex_value
    join_with
match_tests = (refl, refl)

route_key_injective_example : (codes "/x" ≡ codes "/x") × (codes "GET" ≡ codes "GET")
route_key_injective_example =
    route_key_injective (codes "/x") (codes "/x") (codes "GET") (codes "GET") (omega arith)
      (omega arith) refl

abbrev two_segments : List Bytes
two_segments = codes "a" ∷ codes "b" ∷ []

split_path-join_path_example : split_path (join_path two_segments) ≡ two_segments
split_path-join_path_example =
    split_path-join_path two_segments (((λ e. cc), omega arith), (((λ e. cc), omega arith), tt))

match_pattern_iff_example :
    (match_pattern ((b':' ∷ codes "id") ∷ []) (codes "7" ∷ [])
      ≡ some ((codes "id", codes "7") ∷ []))
    ↔ Matches ((b':' ∷ codes "id") ∷ []) (codes "7" ∷ []) ((codes "id", codes "7") ∷ [])
match_pattern_iff_example =
    match_pattern_iff ((b':' ∷ codes "id") ∷ []) (codes "7" ∷ []) ((codes "id", codes "7") ∷ [])
