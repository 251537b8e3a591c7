-- ===== src/Examples/Variables.antt =====
-- The environment: sources/environment.cpp.
use vermell.Prelude.{
  ◌≡◌, refl, [], ◌∷◌, codes, same, strip_prefix, cut, cut_seq, split_on, drop_while, drop_while_end,
}
use vermell.Http.Head.{strip_cr}
use vermell.Environment.{parse_env, parse_lines, parse_line, clean_value, put_value}

env_parsed :
    parse_env (codes "# c\nexport A = 1 # one\r\nB=\" x # \"\n =2\nA=3\n")
    ≡ (codes "A", codes "3") ∷ (codes "B", codes " x # ") ∷ []
unfolding parse_env parse_lines parse_line clean_value put_value same split_on cut cut_seq
    strip_prefix drop_while drop_while_end strip_cr
env_parsed = refl
