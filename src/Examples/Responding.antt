-- ===== src/Examples/Responding.antt =====
-- Responses: include/vermell/http/response.hpp.
use vermell.Http.Response.{
  Response, new_response, sanitize, set_header, set, set_body, has, phrase_in, reason, field_lines,
  head,
}
use vermell.Http.Response.Headers.{
  IsWellFormed, set-IsWellFormed, new_response-IsWellFormed, value_of, value_of-set,
}
use vermell.Http.Response.Wire.{head_lines, with_cr, split_on-head}
use vermell.Http.Text.{lower, iequals}
use vermell.Prelude.Decimal.{digits_on, decimal}
use vermell.Prelude.{
  ◌≡◌, refl, some, [], ◌∷◌, ◌++◌, map, if◌then◌else◌, Bytes, codes, same, is_empty, split_on,
}

-- A value that tries to end its line.
abbrev tainted : Bytes
tainted = codes "a\r\nSet-Cookie: x"

abbrev tainted_response : Response
tainted_response = set (codes "X-Name") tainted (set_body (codes "hi") new_response)

tainted_head :
    head tainted_response
    ≡ codes
        "HTTP/1.1 200 OK\r\nServer: Vermell\r\nContent-Type: text/plain\r\nX-Name: a\r\nContent-Length: 2\r\nAccept-Ranges: bytes\r\nX-Content-Type-Options: nosniff\r\nConnection: keep-alive\r\n\r\n"
unfolding head set sanitize set_header has iequals same lower phrase_in reason field_lines decimal
    digits_on
tainted_head = refl

tainted-IsWellFormed : IsWellFormed tainted_response
tainted-IsWellFormed =
    set-IsWellFormed (codes "X-Name") tainted (set_body (codes "hi") new_response)
      (record { clean = tt; distinct = tt })

set-IsWellFormed_example : IsWellFormed (set (codes "A\nB") tainted new_response)
set-IsWellFormed_example =
    set-IsWellFormed (codes "A\nB") tainted new_response new_response-IsWellFormed

split_on-head_example :
    split_on b'\n' (head tainted_response)
    ≡ map with_cr (head_lines tainted_response) ++ (b'\r' ∷ []) ∷ [] ∷ []
split_on-head_example = split_on-head tainted_response tainted-IsWellFormed

value_of-set_example : value_of (codes "x-name") tainted_response.headers ≡ (
    if is_empty (sanitize (codes "X-Name"))
    then value_of (codes "x-name") (new_response).headers
    else if iequals (sanitize (codes "X-Name")) (codes "x-name")
    then some (sanitize tainted)
    else value_of (codes "x-name") (new_response).headers)
value_of-set_example =
    value_of-set (codes "X-Name") tainted (codes "x-name") (set_body (codes "hi") new_response)
