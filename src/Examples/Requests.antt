-- ===== src/Examples/Requests.antt =====
-- Requests, prepared responses and middlewares: include/vermell/request/parameters.hpp,
-- sources/request/request.cpp and include/vermell/routes.hpp.
use vermell.Prelude.{
  ℕ, ◌+◌, ◌≡◌, refl, ◌↔◌, some, List, [], ◌∷◌, ◌++◌, map, arith, Bytes, codes, split_on,
}
use vermell.Params.{prepare, prepared, from_chars, guard_body, negsuc}
use vermell.Http.Text.{iequals}
use vermell.Prelude.Decimal.{parse_decimal}
use vermell.Http.Message.{Message}
use vermell.Http.Response.Wire.{head_lines, with_cr}
use vermell.Params.Prepared.{split_on-prepare}
use vermell.Params.Escaping.{guard_body-Reads, message_of, Reads}
use vermell.Query.{Query, next, send, execute, new_query}
use vermell.Query.Chain.{IsRun, Leaves, execute_iff}
use vermell.Request.{Request, consume, new_request}
use vermell.Request.Consuming.{Reflects, consume-IsFresh}

split_on-prepare_example :
    (split_on b'\n'
        (prepare (codes "hi") (codes "text/plain\r\nX: y") (codes "A: b\r\nC:d") 201).head
      ≡ map with_cr (
          head_lines (prepared (codes "hi") (codes "text/plain\r\nX: y") (codes "A: b\r\nC:d") 201))
        ++ (b'\r' ∷ []) ∷ [] ∷ [])
    × ((prepare (codes "hi") (codes "text/plain\r\nX: y") (codes "A: b\r\nC:d") 201).body
        ≡ codes "hi")
split_on-prepare_example =
    split_on-prepare (codes "hi") (codes "text/plain\r\nX: y") (codes "A: b\r\nC:d") 201

applied_headers :
    (prepared (codes "hi") (codes "text/plain\r\nX: y") (codes "A: b\r\nC:d\n:e\nf") 201).headers
    ≡ (codes "Content-Type", codes "text/plain")
      ∷ (codes "A", codes "b")
      ∷ (codes "C", codes "d")
      ∷ []
unfolding prepared iequals
applied_headers = refl

least_int : from_chars 32 (codes "-2147483648") ≡ some (negsuc 2147483647)
unfolding from_chars parse_decimal
least_int = refl

guard_body-Reads_example :
    (text : Bytes) × (guard_body 5 (codes "say \"no\"") ≡ codes "{\"message\":\"" ++ text)
    × Reads text (message_of 5 (codes "say \"no\"")) (codes "}")
guard_body-Reads_example = guard_body-Reads 5 (codes "say \"no\"") (omega arith)

abbrev get_message : Message
get_message = record {
  method = codes "GET";
  target = codes "/a?x=1";
  path = codes "/a";
  query = codes "x=1";
  version = codes "HTTP/1.1";
  body = [];
  headers = (codes "Host", codes "h") ∷ [];
  content_length = 0;
  content_type = [];
  content_type_params = [];
}

abbrev used_request : Request
used_request = record new_request { parameters = (codes "old", codes "1") ∷ [] }

consume-IsFresh_example :
    Reflects get_message (consume get_message used_request)
    × (consume get_message used_request ≡ consume get_message new_request)
consume-IsFresh_example = consume-IsFresh get_message used_request new_request

query_taken : (consume get_message used_request).parameters ≡ (codes "x", codes "1") ∷ []
unfolding consume
query_taken = refl

-- Two middlewares, the first of which goes on; each counts.
abbrev goes_on : Query × ℕ → Query × ℕ
goes_on (q, n) = (next q, n + 1)

abbrev answers : Query × ℕ → Query × ℕ
answers (q, n) = (send (codes "ok") 200 (λ x. x) q, n + 1)

abbrev middlewares : List (Query × ℕ → Query × ℕ)
middlewares = goes_on ∷ answers ∷ answers ∷ []

two_run : (execute middlewares get_message [] 0).1 ≡ 2
unfolding execute
two_run = refl

execute_iff_example :
    (execute middlewares get_message [] 0 ≡ execute middlewares get_message [] 0) ↔ (
      (s : Query × ℕ) × IsRun middlewares
        (record new_query { route_params = []; body = consume get_message new_request }, 0)
        s
      × Leaves s (execute middlewares get_message [] 0))
execute_iff_example =
    execute_iff middlewares get_message [] 0 (execute middlewares get_message [] 0)
